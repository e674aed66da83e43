-- ===== src/ClockOffset/Samples.antt =====
-- The window of samples and the offset that comes out of it, in clock_offset.cpp.
use wivrn_nx_windows.Base.{
  ℕ, ◌+◌, ◌%◌, ◌≤◌, ◌<◌, ◌≡◌, ◌⊎◌, true, false, arith, [], ◌∷◌, ◌++◌, length, length-append,
  length-set, set,
}
use wivrn_nx_windows.Base.Int.{ℤ, pos, negsuc, ◌*ℤ◌, ltb_ℤ}
use wivrn_nx_windows.ClockOffset.{
  Sample, Estimator, Doubles, num_samples, low_bit, clear_low_bit, set_low_bit, average_latency,
  round_trip, regression, refit, mean, answer, middle, add_sample, should_sample, reset, get_offset,
}

low_bit-clear_low_bit : (z : ℤ) → low_bit (clear_low_bit z) ≡ false
unfolding low_bit clear_low_bit
low_bit-clear_low_bit (pos n) = ground arith
low_bit-clear_low_bit (negsuc n) = ground arith

low_bit-set_low_bit : (z : ℤ) → low_bit (set_low_bit z) ≡ true
unfolding low_bit set_low_bit
low_bit-set_low_bit (pos n) = ground arith
low_bit-set_low_bit (negsuc n) = ground arith

pub record IsValid (e : Estimator) : Type 0 where
  pub fits : length e.samples ≤ num_samples
  pub index_in : e.sample_index < num_samples
  pub filling : (length e.samples ≡ num_samples) ⊎ (e.sample_index ≡ 0)

pub reset-IsValid : (e : Estimator) → IsValid (reset e)
unfolding reset
reset-IsValid e = ground arith

module _ {D : Type 0} (d : Doubles D) where
  -- A sample keeps the window within its 100 samples and its index in range, and is added to it,
  -- takes the place of another, or is left out with the offset as it was.
  pub add_sample-IsValid :
      (e : Estimator) (s : Sample)
      → IsValid e
      → let e' = add_sample d e s in
        IsValid e'
        × ((length e'.samples ≡ length e.samples + 1)
            ⊎ ((length e.samples ≡ num_samples) × (length e'.samples ≡ num_samples)))
  unfolding add_sample refit
  add_sample-IsValid e s v =
      ground (arith, length-append e.samples (s ∷ []), length-set e.samples e.sample_index s)

  refit_lem :
      (e : Estimator)
      → ((refit d e).samples ≡ e.samples)
        × (((length e.samples < num_samples) × (low_bit (refit d e).b ≡ false))
            ⊎ ((num_samples ≤ length e.samples)
                × (low_bit (refit d e).b
                    ≡ d.within (d.sub (regression d e.samples) (d.of_int e.b)))))
  unfolding refit
  refit_lem e =
      let early = d.to_int (d.sub (mean d (answer d) e.samples) (mean d (middle d) e.samples)) in
      let b = d.to_int (regression d e.samples) in
      ground (arith, low_bit-clear_low_bit early, low_bit-clear_low_bit b, low_bit-set_low_bit b)

  -- A window that is not full takes a sample in behind the rest, and a full one in the place of the
  -- oldest, unless its round trip is over three times the average: then window and offset are as
  -- they were. A sample taken in leaves the offset not stable while the window is not full. With a
  -- full window the offset is stable exactly if its fit is within 20 ms of the offset before.
  pub get_offset-add_sample :
      (e : Estimator) (s : Sample)
      → IsValid e
      → let e' = add_sample d e s in
        let outlier = ltb_ℤ (pos 3 *ℤ average_latency e.samples) (round_trip s) in
        ((length e.samples < num_samples)
          × (e'.samples ≡ e.samples ++ (s ∷ []))
          × (((length e'.samples < num_samples) × ((get_offset e').stable ≡ false))
              ⊎ ((length e'.samples ≡ num_samples)
                  × ((get_offset e').stable
                      ≡ d.within (d.sub (regression d e'.samples) (d.of_int e.b))))))
        ⊎ ((length e.samples ≡ num_samples)
            × (outlier ≡ false)
            × (e'.samples ≡ set e.samples e.sample_index s)
            × (e'.sample_index ≡ (e.sample_index + 1) % num_samples)
            × ((get_offset e').stable ≡ d.within (d.sub (regression d e'.samples) (d.of_int e.b))))
        ⊎ ((length e.samples ≡ num_samples)
            × (outlier ≡ true)
            × (e'.samples ≡ e.samples)
            × (e'.sample_index ≡ e.sample_index)
            × (e'.b ≡ e.b))
  unfolding add_sample get_offset
  get_offset-add_sample e s v =
      let e1 = record e { samples = e.samples ++ (s ∷ []) } in
      let e2 = record e {
        sample_interval = 100_000_000;
        samples = set e.samples e.sample_index s;
        sample_index = (e.sample_index + 1) % num_samples;
      } in
      ground (
        arith,
        v.fits,
        length-append e.samples (s ∷ []),
        length-set e.samples e.sample_index s,
        refit_lem e1,
        refit_lem e2,
      )

-- Two samples are never asked for less than the sample interval apart: after one, no call before it
-- is over asks for another, and the first call after it does.
pub should_sample_spaced :
    (e : Estimator) (now later : ℕ)
    → (should_sample e now).1 ≡ true
    → let e' = (should_sample e now).0 in
      ((later < now + e.sample_interval) × ((should_sample e' later).1 ≡ false))
      ⊎ ((now + e.sample_interval ≤ later) × ((should_sample e' later).1 ≡ true))
unfolding should_sample
should_sample_spaced e now later h = ground arith
