-- ===== src/Bridge/Sessions.antt =====
-- Whole sessions of bridge.cpp: calls, collections and shims that come and go.
use wivrn_nx_windows.Base.{ℕ, ◌≤◌, ◌<◌, ◌≡◌, refl, Bool, false, none, some, List, [], ◌∷◌, arith}
use wivrn_nx_windows.Bridge.{
  HmdConfig, Cursor, Bridge, fresh, first_pose, first_input, make, device_count, collect,
}
use wivrn_nx_windows.Bridge.View.{View, receive_all, IsSynced}
use wivrn_nx_windows.Bridge.Calls.{Call, call, call-IsSynced}
use wivrn_nx_windows.Bridge.Synced.{collect-Keeps}
use wivrn_nx_windows.Bridge.CaughtUp.{collect-IsCaughtUp}

-- The bridge, the shim's cursor, and what the shim knows.
pub record System (F : Type 0) : Type 0 where
  pub bridge : Bridge F
  pub cursor : Cursor
  pub view : View F

-- A call of the session, a collection that reaches the shim, or a new shim.
pub data Event (F : Type 0) : Type 0 where
  called : Call F → Event F
  collected : Event F
  connected : Event F

-- A shim that just connected: it has no configuration and no device.
abbrev pub nothing : {F : Type 0} → F → F → View F
nothing nought unit = record {
  config = none;
  pose = first_pose nought unit;
  input = first_input nought;
  present = λ i. false;
}

module _ {F : Type 0} (same : HmdConfig F → HmdConfig F → Bool) (nought unit : F) where
  pub step : System F → Event F → System F
  step m (called k) = record m { bridge = call same m.bridge k }
  step m collected =
      let (c, out) = collect m.bridge m.cursor [] in
      record m { cursor = c; view = receive_all m.view out }
  step m connected = record m { cursor = fresh; view = nothing nought unit }

  pub run : System F → List (Event F) → System F
  run m [] = m
  run m (e ∷ es) = run (step m e) es

  abbrev pub start : HmdConfig F → System F
  start config = record {
    bridge = make nought unit config;
    cursor = fresh;
    view = nothing nought unit;
  }

  -- The shim of now is in step, and so would be one that connects now.
  abbrev InStep : System F → Type 0
  InStep m = IsSynced m.bridge m.cursor m.view × IsSynced m.bridge fresh (nothing nought unit)

  start-IsSynced :
      (config : HmdConfig F) → IsSynced (make nought unit config) fresh (nothing nought unit)
  start-IsSynced k = record {
    config = (omega arith, λ e. absurd (omega (arith, e)));
    pose = λ i. (omega arith, λ e. refl);
    input = λ i. (omega arith, λ e. refl);
    presence = λ i. (omega arith, λ e. refl);
    pose_device = λ i. refl;
    input_device = λ i. refl;
  }

  step-InStep : (m : System F) (e : Event F) → InStep m → InStep (step m e)
  unfolding step
  step-InStep m (called k) (now, later) = (
    call-IsSynced same m.bridge m.cursor m.view k now,
    call-IsSynced same m.bridge fresh (nothing nought unit) k later,
  )
  step-InStep m collected (now, later) = (collect-Keeps m.bridge m.view m.cursor [] now, later)
  step-InStep m connected (now, later) = (later, later)

  run-InStep : (m : System F) (es : List (Event F)) → InStep m → InStep (run m es)
  unfolding run
  run-InStep m [] h = h
  run-InStep m (e ∷ es) h = run-InStep (step m e) es (step-InStep m e h)

  -- The shim knows what the bridge holds.
  pub record IsUpToDate (b : Bridge F) (v : View F) : Type 0 where
    pub config : v.config ≡ some b.config
    pub presence : (i : ℕ) → 1 ≤ i → i < device_count → v.present i ≡ b.present i
    pub pose : (i : ℕ) → i < device_count → v.pose i ≡ b.pose i
    pub input : (i : ℕ) → i < device_count → v.input i ≡ b.input i

  -- After any calls, collections and reconnections since the start, one more collection leaves the
  -- shim with the present configuration, presence of the controllers, poses and inputs.
  pub collected-IsUpToDate :
      (config : HmdConfig F) (es : List (Event F))
      → let m = run (start config) es in
        let m' = step m collected in (m'.bridge ≡ m.bridge) × IsUpToDate m.bridge m'.view
  unfolding step
  collected-IsUpToDate config es =
      let m = run (start config) es in
      let h = run-InStep (start config) es (start-IsSynced config, start-IsSynced config) in
      let now = (step-InStep m collected h).0 in
      let (c, p, q, i) = collect-IsCaughtUp m.bridge m.cursor [] in
      (
        refl,
        record {
          config = now.config.1 c;
          presence = λ j low high. (now.presence j).1 (p j low high);
          pose = λ j high. (now.pose j).1 (q j high);
          input = λ j high. (now.input j).1 (i j high);
        },
      )
