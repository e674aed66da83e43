-- ===== src/Idr.antt =====
-- helper/src/wivrn/idr_tracker.h: when the stream needs a key frame.
--
-- Time is a number of nanoseconds since the epoch of the steady clock, whose `time_point{}` is 0;
-- a signed test `now - last < d` is written `now < last + d`. Frame numbers and the counter are
-- 64-bit counts that do not wrap within a session.
pub mod Run
pub mod Spacing
pub mod Recovery
mod Tests
use wivrn_nx_windows.Base.{
  ℕ, ◌+◌, ◌*◌, Bool, true, false, not, ◌&&◌, ◌||◌, ltb, ◌==◌, if◌then◌else◌,
}

pub data State : Type 0 where
  need_idr wait_idr_feedback idr_received running : State

pub record IdrTracker : Type 0 where
  pub state : State
  pub idr_id : ℕ
  pub first_p : ℕ
  pub pending : Bool
  pub last_request : ℕ
  pub damped : ℕ

-- The two fields of a feedback packet that the tracker reads.
pub record Feedback : Type 0 where
  pub frame_index : ℕ
  pub sent_to_decoder : Bool

-- 500 ms
abbrev pub min_recovery_interval : ℕ
min_recovery_interval = 500 * 1_000_000

pub reset : IdrTracker → IdrTracker
reset t = record {
  state = need_idr;
  idr_id = 0;
  first_p = 0;
  pending = false;
  last_request = 0;
  damped = 0;
}

pub on_frame_sent : IdrTracker → ℕ → Bool → IdrTracker
on_frame_sent t frame_index true = record t {
  state = wait_idr_feedback;
  idr_id = frame_index;
  pending = false;
}
on_frame_sent t frame_index false = elim t.state [
  | idr_received ↦ record t { state = running; first_p = frame_index }
  | _ ↦ t
]

-- Grants a recovery IDR, or holds it until the floor expires.
pub request : IdrTracker → ℕ → IdrTracker × Bool
request t now =
    if not (t.last_request == 0) && ltb now (t.last_request + min_recovery_interval)
    then (record t { damped = if t.pending then t.damped else t.damped + 1; pending = true }, false)
    else (record t { pending = false; last_request = now }, true)

pub on_feedback : IdrTracker → Feedback → ℕ → IdrTracker × Bool
unfolding request
on_feedback t f now = elim t.state [
  | need_idr ↦ (t, false)
  | idr_received ↦ (t, false)
  | wait_idr_feedback ↦
      if not (f.frame_index == t.idr_id)
      then (t, false)
      else if f.sent_to_decoder
      then (record t { state = idr_received }, false)
      else request (record t { state = need_idr }) now
  | running ↦
      if f.sent_to_decoder || ltb f.frame_index t.first_p
      then (t, false)
      else request (record t { state = need_idr }) now
]

pub poll : IdrTracker → ℕ → IdrTracker × Bool
poll t now =
    if not t.pending
    then (t, false)
    else if ltb now (t.last_request + min_recovery_interval)
    then (t, false)
    else (record t { pending = false; last_request = now }, true)

pub waiting_for_idr : IdrTracker → Bool
waiting_for_idr t = elim t.state [ need_idr ↦ true | _ ↦ false ]
