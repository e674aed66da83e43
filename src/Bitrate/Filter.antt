-- ===== src/Bitrate/Filter.antt =====
-- The windowed maximum of bitrate_controller.h.
use wivrn_nx_windows.Base.{ℕ, ◌+◌, ◌/◌, Bool, not, ◌||◌, ◌&&◌, ltb, ◌==◌, if◌then◌else◌}
use wivrn_nx_windows.Base.Int.{pos}
use wivrn_nx_windows.Bitrate.{Doubles, Entry, MaxFilter}

module _ {D : Type 0} where
  unfoldable pub is_valid : MaxFilter D → Bool
  is_valid f = not (f.count == 0)

  unfoldable pub maximum : MaxFilter D → D
  maximum f = f.s0.value

  -- The first entry aged out, and the others move up, twice if the second did too.
  unfoldable pub promoted : MaxFilter D → Entry D → ℕ → MaxFilter D
  promoted f e window =
      if ltb (f.s1.when + window) e.when
      then record f { s0 = f.s2; s1 = e; s2 = e }
      else record f { s0 = f.s1; s1 = f.s2; s2 = e }

  -- What passing time does to the entries.
  unfoldable pub aged : MaxFilter D → Entry D → ℕ → MaxFilter D
  unfolding promoted
  aged f e window =
      if ltb (f.s0.when + window) e.when
      then promoted f e window
      else if f.s1.when == f.s0.when && ltb (f.s1.when + window / 4) e.when
      then record f { s1 = e; s2 = e }
      else if f.s2.when == f.s1.when && ltb (f.s2.when + window / 2) e.when
      then record f { s2 = e }
      else f

module _ {D : Type 0} (d : Doubles D) where
  abbrev nowhere : Entry D
  nowhere = record { when = 0; value = d.of_int (pos 0) }

  unfoldable pub emptied : MaxFilter D
  emptied = record { s0 = nowhere; s1 = nowhere; s2 = nowhere; count = 0 }

  -- The value takes the place of the entries behind the first that it is no worse than.
  unfoldable pub inserted : MaxFilter D → Entry D → MaxFilter D
  inserted f e =
      if d.ge e.value f.s1.value
      then record f { s1 = e; s2 = e }
      else if d.ge e.value f.s2.value
      then record f { s2 = e }
      else f

  unfoldable pub update : MaxFilter D → D → ℕ → ℕ → MaxFilter D
  unfolding inserted aged
  update f value now window =
      let e : Entry D = record { when = now; value = value } in
      let f1 = record f { count = f.count + 1 } in
      if f1.count == 1 || d.ge value f.s0.value || ltb (f.s2.when + window) now
      then record f1 { s0 = e; s1 = e; s2 = e }
      else aged (inserted f1 e) e window

  pub capped : Entry D → D → Entry D
  capped e value = if d.ge e.value value then record e { value = value } else e

  unfoldable pub cap : MaxFilter D → D → MaxFilter D
  unfolding capped
  cap f value = record f { s0 = capped f.s0 value; s1 = capped f.s1 value; s2 = capped f.s2 value }
