-- ===== src/Bitrate/Range.antt =====
-- What it is for a decision of bitrate_controller.cpp to keep the bitrate in its range.
use wivrn_nx_windows.Base.{ℕ, ◌≤◌, ◌<◌, ◌≡◌, refl, ◌⊎◌, Option, none, some, arith}
use wivrn_nx_windows.Bitrate.{aimd, steady, Controller, mode}

module _ {D : Type 0} where
  -- A rebound is of the AIMD law, is not at its target yet, and does not aim above the ceiling.
  abbrev pub Rebounds : Controller D → Type 0
  Rebounds c =
      (c.st ≡ steady)
      ⊎ ((mode c ≡ aimd) × (c.bitrate < c.recovery_target) × (c.recovery_target ≤ c.ceiling))

  abbrev pub InRange : Controller D → Type 0
  InRange c = (c.min_bitrate ≤ c.bitrate) × (c.bitrate ≤ c.ceiling) × Rebounds c

  -- The switches, the limits, the decision on the bitrate and the last decrease are the same.
  abbrev pub SameRates : Controller D → Controller D → Type 0
  SameRates c c' =
      (c'.conf ≡ c.conf)
      × (c'.client_enabled ≡ c.client_enabled)
      × (c'.client_mode ≡ c.client_mode)
      × (c'.ceiling ≡ c.ceiling)
      × (c'.min_bitrate ≡ c.min_bitrate)
      × (c'.bitrate ≡ c.bitrate)
      × (c'.st ≡ c.st)
      × (c'.recovery_target ≡ c.recovery_target)
      × (c'.last_decrease ≡ c.last_decrease)

  -- The switches and the limits are.
  abbrev pub SameLimits : Controller D → Controller D → Type 0
  SameLimits c c' =
      (c'.conf ≡ c.conf)
      × (c'.client_enabled ≡ c.client_enabled)
      × (c'.client_mode ≡ c.client_mode)
      × (c'.ceiling ≡ c.ceiling)
      × (c'.min_bitrate ≡ c.min_bitrate)

  -- What is answered is the new bitrate, and where nothing is it did not change.
  abbrev pub Told : ℕ → Controller D × Option ℕ → Type 0
  Told previous p =
      ((p.1 ≡ none) × (p.0.bitrate ≡ previous))
      ⊎ ((p.1 ≡ some p.0.bitrate) × (p.0.bitrate ≡ previous → ⊥))

  -- A decision keeps the limits and the range, and answers what it did.
  abbrev pub Decides : Controller D → Controller D × Option ℕ → Type 0
  Decides c p = SameLimits c p.0 × InRange p.0 × Told c.bitrate p

  pub InRange-same :
      (c c' : Controller D) → SameRates c c' → InRange c → InRange c' × (mode c' ≡ mode c)
  InRange-same c c' same h = ground arith

  pub Decides-from :
      (c c' : Controller D) (p : Controller D × Option ℕ)
      → SameRates c c'
      → Decides c' p
      → Decides c p
  Decides-from c c' p same h = ground arith

  pub SameRates-refl : (c : Controller D) → SameRates c c
  SameRates-refl c = (refl, refl, refl, refl, refl, refl, refl, refl, refl)

  pub SameRates-trans : (a b c : Controller D) → SameRates a b → SameRates b c → SameRates a c
  SameRates-trans a b c h k = ground arith

  pub Decides-none : (c : Controller D) → InRange c → Decides c (c, none)
  Decides-none c h = ground arith

  -- What only changes the rest of the state decides nothing.
  pub Decides-same : (c c' : Controller D) → SameRates c c' → InRange c → Decides c (c', none)
  Decides-same c c' same h = ground arith
