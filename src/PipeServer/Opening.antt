-- ===== src/PipeServer/Opening.antt =====
-- What a client of pipe_server.cpp is sent first, and that it stays first.
use wivrn_nx_windows.Base.{
  ℕ, ◌+◌, ◌≡◌, refl, inl, inr, Bool, true, false, not, ltb, if◌then◌else◌, List, [], ◌∷◌, ◌++◌, map,
  arith, either, All, All-append,
}
use wivrn_nx_windows.Bridge.{
  HmdConfig, Outgoing, hmd_config, device_add, device_remove, pose_update, input_update, collect,
}
use wivrn_nx_windows.Intake.{FrameDone}
use wivrn_nx_windows.PipeServer.{
  PipeServer, Sent, helper_hello, bridged, frame_done, Layout, Message, WaitResult, message,
  timeout, shutdown, error, Round, Served, client_gone, helper_stops, goes_on, payload_size,
  max_message_size, helper_magic, protocol_version, wait_for_message,
}
use wivrn_nx_windows.PipeServer.Loop.{
  send_message, send_all, counted, flush_bridge, flush_frame_done, handle_message, heard, pass,
  serve,
}
use wivrn_nx_windows.PipeServer.Answered.{GivesBack, flush_frame_done-GivesBack}

module _ {F : Type 0} where
  -- The message is no greeting.
  unfoldable pub IsPlain : Sent F → Type 0
  IsPlain (helper_hello magic version) = ⊥
  IsPlain (bridged m) = Unit
  IsPlain (frame_done d) = Unit

  -- The greeting, then the configuration, then no other greeting.
  unfoldable pub Opened : HmdConfig F → List (Sent F) → Type 0
  Opened c [] = ⊥
  Opened c (x ∷ []) = ⊥
  Opened c (x ∷ y ∷ ys) =
      (x ≡ helper_hello helper_magic protocol_version)
      × (y ≡ bridged (hmd_config c))
      × All IsPlain ys

  -- The beginning of that.
  unfoldable pub Opening : HmdConfig F → List (Sent F) → Type 0
  unfolding Opened
  Opening c [] = Unit
  Opening c (x ∷ []) = x ≡ helper_hello helper_magic protocol_version
  Opening c (x ∷ y ∷ ys) = Opened c (x ∷ y ∷ ys)

  Opened-append :
      (c : HmdConfig F) (xs ys : List (Sent F)) → Opened c xs → All IsPlain ys → Opened c (xs ++ ys)
  unfolding Opened
  Opened-append c [] ys h k = elim h [ ]
  Opened-append c (x ∷ []) ys h k = elim h [ ]
  Opened-append c (x ∷ y ∷ xs) ys (greeted, given, plain) k =
      (greeted, given, All-append IsPlain xs ys plain k)

  pub Opened-Opening : (c : HmdConfig F) (xs : List (Sent F)) → Opened c xs → Opening c xs
  unfolding Opened Opening
  Opened-Opening c [] h = elim h [ ]
  Opened-Opening c (x ∷ []) h = elim h [ ]
  Opened-Opening c (x ∷ y ∷ xs) h = h

map-IsPlain : (F : Type 0) (ds : List FrameDone) → All (IsPlain {F = F}) (map frame_done ds)
unfolding IsPlain
map-IsPlain F [] = tt
map-IsPlain F (d ∷ ds) = (tt, map-IsPlain F ds)

module _ {F E : Type 0} (write : ℕ → Bool) (c : HmdConfig F) where
  abbrev Goes : PipeServer F E × Bool → Type 0
  Goes p = Opened c p.0.sent

  send_message-Opened :
      (s : PipeServer F E) (m : Sent F)
      → Opened c s.sent
      → IsPlain m
      → Goes (send_message write s m)
  unfolding send_message
  send_message-Opened s m h plain =
      either Goes (ltb max_message_size (4 + payload_size m)) (s, false)
        (if write s.writes
          then (record s { writes = s.writes + 1; sent = s.sent ++ (m ∷ []) }, true)
          else (record s { writes = s.writes + 1 }, false))
        h
        (either Goes (write s.writes)
          (record s { writes = s.writes + 1; sent = s.sent ++ (m ∷ []) }, true)
          (record s { writes = s.writes + 1 }, false)
          (Opened-append c s.sent (m ∷ []) h (plain, tt)) h)

  counted-sent : (s : PipeServer F E) (m : Outgoing F) → (counted s m).sent ≡ s.sent
  unfolding counted
  counted-sent s (hmd_config x) = refl
  counted-sent s (device_add x) = refl
  counted-sent s (device_remove x) = refl
  counted-sent s (pose_update x) = refl
  counted-sent s (input_update x) = refl

  pub send_all-Opened :
      (s : PipeServer F E) (ms : List (Outgoing F)) → Opened c s.sent → Goes (send_all write s ms)
  unfolding send_all IsPlain
  send_all-Opened s [] h = h
  send_all-Opened s (m ∷ ms) h =
      let (s1, ok) = send_message write s (bridged m) in
      let there = send_message-Opened s (bridged m) h tt in
      either Goes ok (send_all write (counted s1 m) ms) (s1, false)
        (send_all-Opened (counted s1 m) ms (rw (counted-sent s1 m) there)) there

  flush_bridge-Opened : (s : PipeServer F E) → Opened c s.sent → Goes (flush_bridge write s)
  unfolding flush_bridge
  flush_bridge-Opened s h =
      let (cursor, pending) = collect s.bridge s.cursor [] in
      send_all-Opened (record s { cursor = cursor }) pending h

  flush_frame_done-Opened : (s : PipeServer F E) → Opened c s.sent → Goes (flush_frame_done write s)
  unfolding GivesBack
  flush_frame_done-Opened s h = elim (flush_frame_done-GivesBack write s) [
    | inl (ok, used, (out, left, total, all)) ↦
        rw out
          (Opened-append c s.sent (map frame_done s.intake.done) h (map-IsPlain F s.intake.done))
    | inr (failed, given, lost, left, split, fails, used, (out, rest, total, all)) ↦
        rw out (Opened-append c s.sent (map frame_done given) h (map-IsPlain F given))
  ]

module _ {F E P : Type 0} (layout : Layout F P) (write : ℕ → Bool) where
  kind-sent : (s : PipeServer F E) (m : Message P) → (handle_message layout s m).0.sent ≡ s.sent
  unfolding handle_message
  kind-sent s m = ground arith

  heard-sent : (s : PipeServer F E) (r : WaitResult P) → (heard layout s r).0.sent ≡ s.sent
  unfolding heard
  heard-sent s (message m) = kind-sent s m
  heard-sent s timeout = refl
  heard-sent s shutdown = refl
  heard-sent s error = refl

  pass-Opened :
      (c : HmdConfig F) (s : PipeServer F E) (r : Round F E P)
      → Opened c s.sent
      → Opened c (pass layout write s r).0.sent
  unfolding pass
  pass-Opened c s r h =
      let s0 : PipeServer F E = record s {
        bridge = r.bridge s.bridge;
        intake = r.intake s.intake;
        video = r.video s.video;
      } in
      let (s1, sent) = flush_bridge write s0 in
      let (s2, returned) = flush_frame_done write s1 in
      let h1 = flush_bridge-Opened write c s0 h in
      let h2 = flush_frame_done-Opened write c s1 h1 in
      let result = wait_for_message r.wait in
      let holds : PipeServer F E × Served → Type 0 = λ p. Opened c p.0.sent in
      either holds (not sent) (s1, client_gone)
        (if not returned then (s2, client_gone) else heard layout s2 result) h1
        (either holds (not returned) (s2, client_gone) (heard layout s2 result) h2
          (rw (heard-sent s2 result) h2))

  ended-Opened :
      (c : HmdConfig F) (p rest : PipeServer F E × Served)
      → Opened c p.0.sent
      → Opened c rest.0.sent
      → Opened c
          (elim p.1 as (λ x. PipeServer F E × Served) [
            | goes_on ↦ rest
            | client_gone ↦ (p.0, client_gone)
            | helper_stops ↦ (p.0, helper_stops)
          ]).0.sent
  ended-Opened c (s, client_gone) rest h k = h
  ended-Opened c (s, helper_stops) rest h k = h
  ended-Opened c (s, goes_on) rest h k = k

  pub serve-Opened :
      (c : HmdConfig F) (s : PipeServer F E) (rs : List (Round F E P))
      → Opened c s.sent
      → Opened c (serve layout write s rs).0.sent
  unfolding serve
  serve-Opened c s [] h = h
  serve-Opened c s (r ∷ rs) h =
      let p = pass layout write s r in
      let there = pass-Opened c s r h in
      ended-Opened c p (serve layout write p.0 rs) there (serve-Opened c p.0 rs there)
