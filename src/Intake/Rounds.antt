-- ===== src/Intake/Rounds.antt =====
-- The pipe thread and the encoder thread of video_intake.cpp, interleaved at their locks.
use wivrn_nx_windows.Base.{
  ℕ, ◌+◌, ◌<◌, Bool, Option, none, some, List, [], ◌∷◌, length, if◌then◌else◌,
}
use wivrn_nx_windows.VideoBridge.{VideoBridge}
use wivrn_nx_windows.Staging.{StagingConfig}
use wivrn_nx_windows.Intake.{
  FrameReady, FrameDone, Intake, max_done, on_staging_config, on_frame_ready, pop_done, Encoder,
  wake, drop_encoder, take_pending, encode_begin, encode_work, encode_finish,
}
use wivrn_nx_windows.Intake.Answers.{answers, waits, held}

-- Where the encoder thread is in `run` and `encode_one`, between two locks.
pub data Thread (F : Type 0) : Type 0 where
  idle : Thread F
  tearing : Thread F
  taken : FrameReady F → Thread F
  working : FrameReady F → StagingConfig → ℕ → Thread F
  finishing : FrameReady F → Bool → Thread F

-- The intake, the bridge, the encoder thread, and the answers sent to the shim, newest first.
pub record System (F E : Type 0) : Type 0 where
  pub intake : Intake F E
  pub bridge : VideoBridge F
  pub thread : Thread F
  pub sent : List FrameDone

-- A message of the shim, a poll for answers, a change of the bridge, or a turn of the encoder
-- thread up to its next lock.
pub data Event (F : Type 0) : Type 0 where
  ready : FrameReady F → Event F
  configured : StagingConfig → Event F
  polled : Event F
  changed : VideoBridge F → Event F
  turn : Event F

-- How many of the frames that the shim offers are `x`.
abbrev pub offered : {F : Type 0} → ℕ → List (Event F) → ℕ
offered x [] = 0
offered x (ready f ∷ es) = waits x (some f) + offered x es
offered x (configured c ∷ es) = offered x es
offered x (polled ∷ es) = offered x es
offered x (changed b ∷ es) = offered x es
offered x (turn ∷ es) = offered x es

abbrev pub in_hand : {F : Type 0} → ℕ → Thread F → ℕ
in_hand x idle = 0
in_hand x tearing = 0
in_hand x (taken f) = waits x (some f)
in_hand x (working f c pid) = waits x (some f)
in_hand x (finishing f encoded) = waits x (some f)

abbrev pub next_frame : {F : Type 0} → Option (FrameReady F) → Thread F
next_frame none = idle
next_frame (some f) = taken f

module _ {F E : Type 0} where
  -- What the system holds of the frame `x`, its answers included.
  abbrev pub tracked : ℕ → System F E → ℕ
  tracked x m = answers x m.sent + held x m.intake + in_hand x m.thread

  module _ (encoder : Encoder F E) where
    unfoldable pub advance :
        Intake F E → VideoBridge F → Thread F → Intake F E × VideoBridge F × Thread F
    advance s bridge idle =
        let (s1, tear) = wake encoder s in
        let (s2, found) = take_pending encoder s1 in
        if tear then (s1, bridge, tearing) else (s2, bridge, next_frame found)
    advance s bridge tearing =
        let (s1, bridge1) = drop_encoder encoder s bridge in
        let (s2, found) = take_pending encoder s1 in (s2, bridge1, next_frame found)
    advance s bridge (taken f) =
        let (s', found) = encode_begin encoder s f in
        (s', bridge, elim found [ none ↦ idle | some (config, pid) ↦ working f config pid ])
    advance s bridge (working f config pid) =
        let (s', bridge', encoded) = encode_work encoder s bridge config pid f in
        (s', bridge', finishing f encoded)
    advance s bridge (finishing f encoded) = (encode_finish encoder s f encoded, bridge, idle)

    unfoldable pub step : System F E → Event F → System F E
    step m (ready f) = record m { intake = on_frame_ready m.intake m.bridge f }
    step m (configured c) = record m { intake = on_staging_config m.intake c }
    step m polled =
        let (s, found) = pop_done m.intake in
        record m { intake = s; sent = elim found [ none ↦ m.sent | some d ↦ d ∷ m.sent ] }
    step m (changed b) = record m { bridge = b }
    step m turn =
        let (s, b, t) = advance m.intake m.bridge m.thread in
        record m { intake = s; bridge = b; thread = t }

    unfoldable pub run : System F E → List (Event F) → System F E
    run m [] = m
    run m (e ∷ es) = run (step m e) es

    -- No step finds the queue of answers full.
    abbrev pub HasRoom : System F E → List (Event F) → Type 0
    HasRoom m [] = Unit {0}
    HasRoom m (e ∷ es) = (length m.intake.done < max_done) × HasRoom (step m e) es
