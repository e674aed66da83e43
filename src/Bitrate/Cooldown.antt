-- ===== src/Bitrate/Cooldown.antt =====
-- The cooldown between the decreases of bitrate_controller.cpp.
use wivrn_nx_windows.Base.{
  ℕ, ◌+◌, ◌^◌, ◌≤◌, ◌<◌, ◌≡◌, refl, ◌⊎◌, inl, inr, Bool, ltb, if◌then◌else◌, Option, none, some,
  arith, List, [], ◌∷◌, All,
}
use wivrn_nx_windows.Bitrate.{Doubles, aimd, Controller, mode, flush, decrease_cooldown}
use wivrn_nx_windows.Bitrate.Aimd.{scaled}
use wivrn_nx_windows.Bitrate.Control.{
  reset_locked, set_pacing_window, set_client_enabled, set_ceiling,
}
use wivrn_nx_windows.Bitrate.Steps.{
  on_frame_bytes-SameRates, on_feedback-Decides, on_wifi_state-Decides,
}
use wivrn_nx_windows.Bitrate.Calls.{
  Call, step, IsValid, step-IsValid, set_radio_aware-SameRates, on_feedback_off, on_wifi_state_off,
}
use wivrn_nx_windows.Bitrate.Falls.{DoublingGrows, Cooled, on_feedback-Cooled, on_wifi_state_falls}

module _ {D : Type 0} where
  -- When the link is reported on.
  pub time : Call D → Option ℕ
  time (Call.feedback f period streaming now) = some now
  time (Call.wifi rssi speed now) = some now
  time k = none

  -- The law stays the one it is, and a ceiling is a 32-bit bitrate.
  unfoldable pub Keeps : Call D → Type 0
  Keeps (Call.ceiling n) = n < 2 ^ 32
  Keeps (Call.client_mode m) = ⊥
  Keeps k = Unit

-- The first time is a cooldown after `last`, and each next one a cooldown after the one before it.
pub Spaced : ℕ → List ℕ → Type 0
Spaced last [] = Unit
Spaced last (t ∷ ts) = (last + decrease_cooldown ≤ t) × Spaced t ts

Spaced-earlier : (a b : ℕ) (ts : List ℕ) → a ≤ b → Spaced b ts → Spaced a ts
unfolding Spaced
Spaced-earlier a b [] le h = h
Spaced-earlier a b (t ∷ ts) le h = (omega arith, h.1)

-- One more report: a fall of it comes after the cooldown.
Spaced-next :
    (last last1 before after : ℕ) (ts : List ℕ) (o : Option ℕ)
    → elim o as (λ x. Type 0) [
      | none ↦ last1 ≡ last
      | some now ↦
          ((last1 ≡ last) × (before ≤ after)) ⊎ ((last + decrease_cooldown ≤ now) × (last1 ≡ now))
    ]
    → Spaced last1 ts
    → Spaced last (elim o as (λ x. List ℕ) [
      | none ↦ ts
      | some now ↦ if ltb after before then now ∷ ts else ts
    ])
unfolding Spaced
Spaced-next last last1 before after ts none same h = Spaced-earlier last last1 ts (omega arith) h
Spaced-next last last1 before after ts (some now) (inl (same, le)) h =
    ground (arith, Spaced-earlier last last1 ts)
Spaced-next last last1 before after ts (some now) (inr (cool, same)) h =
    ground (arith, Spaced-earlier last last1 ts)

module _ {D : Type 0} (d : Doubles D) where
  -- The times of the reports that lower the bitrate.
  pub falls : Controller D → List (Call D) → List ℕ
  unfolding step time
  falls c [] = []
  falls c (k ∷ ks) =
      let c1 = (step d c k).0 in
      let rest = falls c1 ks in
      elim (time k) [
        | none ↦ rest
        | some now ↦ if ltb c1.bitrate c.bitrate then now ∷ rest else rest
      ]

  -- What a call does to the law, the ceiling and the last decrease.
  abbrev Rests : Controller D → Call D → Type 0
  unfolding step time
  Rests c k =
      let p = step d c k in
      (mode p.0 ≡ aimd)
      × (p.0.ceiling < 2 ^ 32)
      × elim (time k) [ none ↦ p.0.last_decrease ≡ c.last_decrease | some now ↦ Cooled d c p now ]

  set_ceiling-Rests :
      (c : Controller D) (n : ℕ)
      → c.ceiling < 2 ^ 32
      → mode c ≡ aimd
      → n < 2 ^ 32
      → Rests c (Call.ceiling n)
  unfolding set_ceiling reset_locked flush step time
  set_ceiling-Rests c n small m h = ground arith

  set_client_enabled-Rests :
      (c : Controller D) (on : Bool)
      → c.ceiling < 2 ^ 32
      → mode c ≡ aimd
      → Rests c (Call.client_on on)
  unfolding set_client_enabled reset_locked flush step time
  set_client_enabled-Rests c on small m = ground arith

  step-Rests :
      (c : Controller D) (k : Call D)
      → DoublingGrows d
      → ((n : ℕ) → n < 2 ^ 32 → scaled d n (d.decimal 7 1) ≤ n)
      → c.ceiling < 2 ^ 32
      → IsValid d c
      → mode c ≡ aimd
      → Keeps k
      → Rests c k
  unfolding step time Keeps set_pacing_window IsValid
  step-Rests c (Call.ceiling n) grows shrinks small h m k = set_ceiling-Rests c n small m k
  step-Rests c (Call.client_on on) grows shrinks small h m k = set_client_enabled-Rests c on small m
  step-Rests c (Call.client_mode choice) grows shrinks small h m k = elim k [ ]
  step-Rests c (Call.radio_aware aware) grows shrinks small h m k =
      ground (arith, set_radio_aware-SameRates d c aware)
  step-Rests c (Call.pacing w) grows shrinks small h m k = (m, small, refl)
  step-Rests c (Call.frame_bytes frame stream bytes now) grows shrinks small h m k =
      ground (arith, on_frame_bytes-SameRates d c frame stream bytes now)
  step-Rests c (Call.feedback f period streaming now) grows shrinks small (inl off) m k =
      ground (arith, on_feedback_off d c f period streaming now off)
  step-Rests c (Call.feedback f period streaming now) grows shrinks small (inr (h, floor)) m k =
      ground (
        arith,
        on_feedback-Decides d c f period streaming now h,
        on_feedback-Cooled d c f period streaming now grows small h m,
      )
  step-Rests c (Call.wifi rssi speed now) grows shrinks small (inl off) m k =
      ground (arith, on_wifi_state_off d c rssi speed now off)
  step-Rests c (Call.wifi rssi speed now) grows shrinks small (inr (h, floor)) m k = ground (
    arith,
    on_wifi_state-Decides d c rssi speed now h,
    on_wifi_state_falls d c rssi speed now shrinks small h,
  )

  -- From a valid state in the AIMD law with a 32-bit ceiling, over any calls that leave the law
  -- and give 32-bit ceilings, the reports that lower the bitrate come `decrease_cooldown` after
  -- the last decrease and after one another. Twice a 32-bit bitrate is taken not to be less than
  -- it, and seven tenths of it not to be more.
  pub falls-Spaced :
      (c : Controller D) (ks : List (Call D))
      → DoublingGrows d
      → ((n : ℕ) → n < 2 ^ 32 → scaled d n (d.decimal 7 1) ≤ n)
      → c.ceiling < 2 ^ 32
      → IsValid d c
      → mode c ≡ aimd
      → All Keeps ks
      → Spaced c.last_decrease (falls c ks)
  unfolding falls Spaced time
  falls-Spaced c [] grows shrinks small h m all = all
  falls-Spaced c (k ∷ ks) grows shrinks small h m (keeps, all) =
      let c1 = (step d c k).0 in
      let (law, small1, rests) = step-Rests c k grows shrinks small h m keeps in
      Spaced-next c.last_decrease c1.last_decrease c.bitrate c1.bitrate (falls c1 ks) (time k) rests
        (falls-Spaced c1 ks grows shrinks small1 (step-IsValid d c k h).0 law all)
