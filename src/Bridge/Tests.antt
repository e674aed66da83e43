-- ===== src/Bridge/Tests.antt =====
-- bridge.h on a short session, with natural numbers for the floats.
use wivrn_nx_windows.Base.{ℕ, ◌≡◌, Bool, true, List, [], ◌∷◌, ◌==◌}
use wivrn_nx_windows.Bridge.{HmdConfig, PoseUpdate, Haptic, Bridge, make}
use wivrn_nx_windows.Bridge.Calls.{pose, presence, gone, config}
use wivrn_nx_windows.Bridge.Sessions.{
  Event, called, collected, connected, start, run, step, IsUpToDate, collected-IsUpToDate,
}

abbrev hmd : ℕ → HmdConfig ℕ
hmd width = record {
  eye_width = width;
  eye_height = 1000;
  refresh_hz = 90;
  ipd_m = 0;
  proj_left = [];
  proj_right = [];
  proj_top = [];
  proj_bottom = [];
  eye_to_head_q = [];
  eye_to_head_p = [];
}

abbrev same : HmdConfig ℕ → HmdConfig ℕ → Bool
same a b = a.eye_width == b.eye_width

abbrev moved : ℕ → PoseUpdate ℕ
moved t = record { time_qpc = t; device = 1; connected = 1; q = []; p = []; v = []; w = [] }

abbrev bridge : Bridge ℕ
bridge = make 0 1 (hmd 2000)

abbrev session : List (Event ℕ)
session =
    collected
    ∷ called (presence 1 true)
    ∷ called (pose (moved 10))
    ∷ called (pose (moved 20))
    ∷ connected
    ∷ called (config (hmd 3000))
    ∷ called gone
    ∷ []

collected-IsUpToDate_example :
    let m = run same 0 1 (start same 0 1 (hmd 2000)) session in
    let m' = step same 0 1 m collected in
    (m'.bridge ≡ m.bridge) × IsUpToDate same 0 1 m.bridge m'.view
collected-IsUpToDate_example = collected-IsUpToDate same 0 1 (hmd 2000) session

abbrev pulse : ℕ → Haptic ℕ
pulse n = record { device = 1; duration_s = n; frequency_hz = 0; amplitude = 1 }

abbrev buzzing : Bridge ℕ
buzzing = record bridge { haptics = pulse 1 ∷ [] }
