-- ===== src/Session/Served.antt =====
-- What the headset is told of the stream by session.cpp, and that the loop of a session is never
-- late for a burst.
use wivrn_nx_windows.Base.{
  ℕ, ◌+◌, ◌*◌, ◌≤◌, ◌<◌, ◌≡◌, ◌∙◌, ap, sym, ◌⊎◌, inl, inr, true, false, List, [], ◌∷◌, ◌++◌, arith,
  ◌==◌,
}
use wivrn_nx_windows.VideoBridge.{stream_state, request_idr}
use wivrn_nx_windows.Idr
use wivrn_nx_windows.Session.Transport.{Rates}
use wivrn_nx_windows.Session.Serve.{
  Description, Stream, described, same_description, update_stream_description, poll_timeout,
}

-- The loop waits 20 ms where no burst is held and not at all for one that is due. For a later one it
-- waits, but 20 ms at most, and is not late by a millisecond.
pub poll_timeout_lem :
    (due now : ℕ)
    → let wait = poll_timeout due now in
      ((due ≡ 0) × (wait ≡ 20))
      ⊎ ((0 < due) × (due ≤ now) × (wait ≡ 0))
      ⊎ ((now < due)
          × (0 < wait)
          × (wait ≤ 20)
          × (now + wait * 1_000_000 < due + 1_000_000)
          × ((wait ≡ 20) ⊎ (due ≤ now + wait * 1_000_000)))
unfolding poll_timeout
poll_timeout_lem due now = ground arith

module _ {F : Type 0} (rates : Rates F) where
  -- The last description that the headset was sent.
  abbrev pub LastSent : Stream F → Description F → Type 0
  LastSent s d = (before : List (Description F)) × (s.sent ≡ before ++ (d ∷ []))

  -- The session remembers what it sent last, and whether it sent anything.
  abbrev pub Remembers : Stream F → Type 0
  Remembers s =
      ((s.description_sent ≡ false) × (s.sent ≡ []))
      ⊎ ((s.description_sent ≡ true) × LastSent s s.description)

  -- Nothing is sent, no key frame asked for, and the tracker left alone.
  abbrev pub Keeps : Stream F → Stream F → Type 0
  Keeps s t = (t.sent ≡ s.sent) × (t.video ≡ s.video) × (t.idr ≡ s.idr)

  -- The description is sent, a key frame asked for, and the tracker starts over.
  abbrev pub Sends : Stream F → Description F → Stream F → Type 0
  Sends s now t =
      (t.sent ≡ s.sent ++ (now ∷ []))
      × (t.video.wanted.idr_generation ≡ s.video.wanted.idr_generation + 1)
      × (t.idr ≡ Idr.reset s.idr)

  -- The branches, as the session's own fields tell them apart.
  update_branches :
      (s : Stream F)
      → let t = update_stream_description rates s in
        let now = described s.video.stream.info s.refresh_hz in
        let stays = (t.description ≡ s.description) × (t.description_sent ≡ s.description_sent) in
        (((s.stream_generation ≡ s.video.stream.generation) ⊎ (s.video.stream.valid ≡ false))
          × Keeps s t
          × stays)
        ⊎ ((s.description_sent ≡ true)
            × (same_description rates now s.description ≡ true)
            × Keeps s t
            × stays)
        ⊎ ((s.video.stream.valid ≡ true)
            × ((s.video.stream.generation == s.stream_generation) ≡ false)
            × ((s.description_sent ≡ false) ⊎ (same_description rates now s.description ≡ false))
            × Sends s now t
            × (t.description ≡ now)
            × (t.description_sent ≡ true))
  unfolding update_stream_description stream_state request_idr
  update_branches s = ground arith

  update_seen :
      (s : Stream F)
      → (update_stream_description rates s).stream_generation ≡ s.video.stream.generation
  unfolding update_stream_description stream_state request_idr
  update_seen s = ground arith

  stays-Remembers :
      (s t : Stream F)
      → Remembers s
      → t.sent ≡ s.sent
      → t.description ≡ s.description
      → t.description_sent ≡ s.description_sent
      → Remembers t
  stays-Remembers s t (inl (unsent, nothing)) e d f = inl (f ∙ unsent, e ∙ nothing)
  stays-Remembers s t (inr (told, (before, last))) e d f =
      inr (f ∙ told, (before, e ∙ last ∙ ap (λ x. before ++ (x ∷ [])) (sym d)))

  sends-Remembers :
      (s t : Stream F) (now : Description F)
      → t.sent ≡ s.sent ++ (now ∷ [])
      → t.description ≡ now
      → t.description_sent ≡ true
      → Remembers t
  sends-Remembers s t now e d f = inr (f, (s.sent, e ∙ ap (λ x. s.sent ++ (x ∷ [])) (sym d)))

  -- The headset was sent nothing, or something else last.
  abbrev pub NotTold : Stream F → Description F → Type 0
  NotTold s now =
      (s.sent ≡ [])
      ⊎ ((last : Description F) × LastSent s last × (same_description rates now last ≡ false))

  remembered-NotTold :
      (s : Stream F) (now : Description F)
      → Remembers s
      → (s.description_sent ≡ false) ⊎ (same_description rates now s.description ≡ false)
      → NotTold s now
  remembered-NotTold s now (inl (unsent, nothing)) k = inl nothing
  remembered-NotTold s now (inr (told, last)) (inl unsent) = absurd (ground arith)
  remembered-NotTold s now (inr (told, last)) (inr new) = inr (s.description, last, new)

  remembered-Told :
      (s : Stream F) → Remembers s → s.description_sent ≡ true → LastSent s s.description
  remembered-Told s (inl (unsent, nothing)) told = absurd (ground arith)
  remembered-Told s (inr (told, last)) k = last

  -- A session that remembers what it sent last still does after a call, which has then seen the
  -- encoder's stream. A stream that it had seen or that is not valid leaves everything as it was,
  -- and so does one whose description is what the headset was sent last. Another one, of a
  -- generation not seen before, is sent to a headset that was sent nothing or something else last;
  -- a key frame is asked for and the tracker starts over.
  pub update_stream_description_lem :
      (s : Stream F)
      → Remembers s
      → let t = update_stream_description rates s in
        let now = described s.video.stream.info s.refresh_hz in
        Remembers t
        × (t.stream_generation ≡ s.video.stream.generation)
        × ((((s.stream_generation ≡ s.video.stream.generation) ⊎ (s.video.stream.valid ≡ false))
              × Keeps s t)
            ⊎ (((last : Description F) × LastSent s last × (same_description rates now last ≡ true))
                × Keeps s t)
            ⊎ ((s.video.stream.valid ≡ true)
                × ((s.video.stream.generation == s.stream_generation) ≡ false)
                × NotTold s now
                × Sends s now t))
  update_stream_description_lem s r =
      let t = update_stream_description rates s in
      let now = described s.video.stream.info s.refresh_hz in
      elim (update_branches s) [
        | inl (old, (out, asked, kept), (d, f)) ↦
            (stays-Remembers s t r out d f, update_seen s, inl (old, (out, asked, kept)))
        | inr (inl (told, same, (out, asked, kept), (d, f))) ↦ (
          stays-Remembers s t r out d f,
          update_seen s,
          inr (inl ((s.description, remembered-Told s r told, same), (out, asked, kept))),
        )
        | inr (inr (valid, new, other, (out, wanted, again), d, f)) ↦ (
          sends-Remembers s t now out d f,
          update_seen s,
          inr (inr (valid, new, remembered-NotTold s now r other, (out, wanted, again))),
        )
      ]

  -- A second call changes nothing.
  pub update_stream_description_twice :
      (s : Stream F)
      → update_stream_description rates (update_stream_description rates s)
        ≡ update_stream_description rates s
  unfolding update_stream_description stream_state request_idr
  update_stream_description_twice s = ground arith
