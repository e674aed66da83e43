-- ===== src/Bridge/View.antt =====
-- What the shim knows from the messages of bridge.cpp, and when that is up to date.
use wivrn_nx_windows.Base.{ℕ, ◌≤◌, ◌≡◌, refl, Bool, true, false, Option, some, List, [], ◌∷◌, ◌++◌}
use wivrn_nx_windows.Bridge.{
  HmdConfig, PoseUpdate, InputUpdate, Outgoing, hmd_config, device_add, device_remove, pose_update,
  input_update, Cursor, Bridge, put,
}

pub record View (F : Type 0) : Type 0 where
  pub config : Option (HmdConfig F)
  pub pose : ℕ → PoseUpdate F
  pub input : ℕ → InputUpdate F
  pub present : ℕ → Bool

-- A channel of the cursor: it is not ahead, and where it has caught up the shim has the value.
abbrev pub Channel : {A : Type 0} → ℕ → ℕ → A → A → Type 0
Channel cur gen seen now = (cur ≤ gen) × ((cur ≡ gen) → seen ≡ now)

module _ {F : Type 0} where
  abbrev pub receive : View F → Outgoing F → View F
  receive v (hmd_config c) = record v { config = some c }
  receive v (device_add i) = record v { present = put v.present i true }
  receive v (device_remove i) = record v { present = put v.present i false }
  receive v (pose_update p) = record v { pose = put v.pose p.device p }
  receive v (input_update p) = record v { input = put v.input p.device p }

  abbrev pub receive_all : View F → List (Outgoing F) → View F
  receive_all v [] = v
  receive_all v (m ∷ ms) = receive_all (receive v m) ms

  pub receive_all-append :
      (v : View F) (ms : List (Outgoing F)) (m : Outgoing F)
      → receive_all v (ms ++ (m ∷ [])) ≡ receive (receive_all v ms) m
  receive_all-append v [] m = refl
  receive_all-append v (k ∷ ms) m = receive_all-append (receive v k) ms m

  -- What the shim that reads with this cursor knows.
  pub record IsSynced (b : Bridge F) (c : Cursor) (v : View F) : Type 0 where
    pub config : Channel c.config b.config_gen v.config (some b.config)
    pub pose : (i : ℕ) → Channel (c.pose i) (b.pose_gen i) (v.pose i) (b.pose i)
    pub input : (i : ℕ) → Channel (c.input i) (b.input_gen i) (v.input i) (b.input i)
    pub presence : (i : ℕ) → Channel (c.presence i) (b.presence_gen i) (v.present i) (b.present i)
    pub pose_device : (i : ℕ) → (b.pose i).device ≡ i
    pub input_device : (i : ℕ) → (b.input i).device ≡ i
