-- ===== src/Session/TakeIn.antt =====
-- The frames that come into the queue of session.cpp, beside the one that the sender is at work on.
use wivrn_nx_windows.Base.{
  ◌+◌, ◌-◌, ◌≤◌, ◌≡◌, ◌∙◌, refl, ap, sym, subst, ◌⊎◌, inl, inr, true, List, [], ◌++◌, length, ltb,
  either,
}
use wivrn_nx_windows.VideoBridge.{EncodedFrame, take_frames}
use wivrn_nx_windows.Sender.{Wire}
use wivrn_nx_windows.Session.{Video, max_video_queued}
use wivrn_nx_windows.Session.Send.{take_in, trim}
use wivrn_nx_windows.Session.Trim.{trim_bounded, trim_first}
use wivrn_nx_windows.Session.Rounds.{Sends, IsWell}

module _ {F D : Type 0} {w : Wire} where
  take_in_sender : (v : Video F D w) → (take_in v).sender ≡ v.sender
  unfolding take_in
  take_in_sender v =
      let (bridge, taken, count) = take_frames v.bridge [] in
      let all = v.queue ++ taken in
      let kept = trim v.sender.active all in
      let full : Video F D w = record v {
        bridge = bridge;
        queue = kept;
        frames_dropped = v.frames_dropped + (length all - length kept);
      } in
      either (λ x. x.sender ≡ v.sender) (ltb 0 count) full (record v { bridge = bridge }) refl refl

  -- The queue holds the frames that were there and some that came in, or is what the bound leaves of
  -- them.
  take_in_queue :
      (v : Video F D w)
      → (new : List (EncodedFrame F)) × (((take_in v).queue ≡ v.queue)
          ⊎ ((take_in v).queue ≡ trim v.sender.active (v.queue ++ new)))
  unfolding take_in
  take_in_queue v =
      let (bridge, taken, count) = take_frames v.bridge [] in
      let all = v.queue ++ taken in
      let kept = trim v.sender.active all in
      let full : Video F D w = record v {
        bridge = bridge;
        queue = kept;
        frames_dropped = v.frames_dropped + (length all - length kept);
      } in
      (
        taken,
        either (λ x. (x.queue ≡ v.queue) ⊎ (x.queue ≡ kept)) (ltb 0 count) full
            (record v { bridge = bridge }) (inr refl) (inl refl),
      )

  pub take_in_bounded :
      (v : Video F D w)
      → length v.queue ≤ max_video_queued
      → length (take_in v).queue ≤ max_video_queued
  take_in_bounded v h =
      let (new, how) = take_in_queue v in
      elim how [ inl e ↦ rw e h | inr e ↦ rw e (trim_bounded v.sender.active (v.queue ++ new)) ]

  -- The frame that the sender is at work on stays the first.
  pub take_in-IsWell : (v : Video F D w) → IsWell v → IsWell (take_in v)
  unfolding IsWell
  take_in-IsWell v (inl off) = inl (ap (λ s. s.active) (take_in_sender v) ∙ off)
  take_in-IsWell v (inr (on, f, fs, e, sends)) =
      let still : (take_in v).sender.active ≡ true = ap (λ s. s.active) (take_in_sender v) ∙ on in
      let sends' : Sends f (take_in v).sender =
        subst (λ s. Sends f s) (sym (take_in_sender v)) sends in
      let (new, how) = take_in_queue v in
      elim how [
        | inl same ↦ inr (still, f, fs, same ∙ e, sends')
        | inr kept ↦
            let (rest, first) = trim_first f (fs ++ new) in
            inr (
              still,
              f,
              rest,
              kept
                  ∙ ap (λ b. trim b (v.queue ++ new)) on
                  ∙ ap (λ q. trim true (q ++ new)) e
                  ∙ first,
              sends',
            )
      ]
