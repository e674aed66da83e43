-- ===== src/ClockOffset/Tests.antt =====
-- clock_offset.h at 10 MHz and at 3 Hz, with integers for the doubles.
use wivrn_nx_windows.Base.{◌+◌, ◌≤◌, ◌<◌, ◌≡◌, refl, ◌⊎◌, true, false, [], ◌∷◌, arith, length}
use wivrn_nx_windows.Base.Int.{ℤ, pos, negsuc, ◌+ℤ◌, ◌-ℤ◌, ◌*ℤ◌, ltb_ℤ}
use wivrn_nx_windows.ClockOffset.{
  Sample, Estimator, Doubles, ClockOffset, num_samples, average_latency, round_trip, regression,
  add_sample, get_offset, as_int64, qpc_to_ns, ns_to_qpc,
}
use wivrn_nx_windows.ClockOffset.Ticks.{ns_to_qpc-qpc_to_ns}
use wivrn_nx_windows.ClockOffset.Samples.{IsValid, get_offset-add_sample}

-- A tick is lost where a tick is no whole number of nanoseconds.
lost_tick : ns_to_qpc 3 (qpc_to_ns 3 1) ≡ 0
unfolding ns_to_qpc qpc_to_ns as_int64
lost_tick = refl

ns_to_qpc-qpc_to_ns_example :
    (ns_to_qpc 3 (qpc_to_ns 3 1) ≤ 1) × (1 ≤ ns_to_qpc 3 (qpc_to_ns 3 1) + 1)
ns_to_qpc-qpc_to_ns_example = ns_to_qpc-qpc_to_ns 3 1 (omega arith) (omega arith) (omega arith)

abbrev offset : ClockOffset
offset = record { b = negsuc 4; stable = true }

abbrev integers : Doubles ℤ
integers = record {
  of_int = λ z. z;
  to_int = λ z. z;
  half = pos 1;
  add = λ a b. a +ℤ b;
  sub = λ a b. a -ℤ b;
  mul = λ a b. a *ℤ b;
  inverse = λ n. pos 1;
  within = λ z. ltb_ℤ z (pos 20_000_000);
}

abbrev blank : Estimator
blank = record {
  samples = [];
  sample_index = 0;
  b = pos 0;
  next_sample = 0;
  sample_interval = 10_000_000;
}

blank-IsValid : IsValid blank
blank-IsValid = ground arith

abbrev sample : Sample
sample = record { query = pos 100; response = pos 900; received = pos 140 }

get_offset-add_sample_example :
    let e' = add_sample integers blank sample in
    let outlier = ltb_ℤ (pos 3 *ℤ average_latency []) (round_trip sample) in
    ((0 < num_samples)
      × (e'.samples ≡ sample ∷ [])
      × (((length e'.samples < num_samples) × ((get_offset e').stable ≡ false))
          ⊎ ((length e'.samples ≡ num_samples)
              × ((get_offset e').stable
                  ≡ integers.within (integers.sub (regression integers e'.samples) (pos 0))))))
    ⊎ ((0 ≡ num_samples)
        × (outlier ≡ false)
        × (e'.samples ≡ [])
        × (e'.sample_index ≡ 1)
        × ((get_offset e').stable
            ≡ integers.within (integers.sub (regression integers e'.samples) (pos 0))))
    ⊎ ((0 ≡ num_samples)
        × (outlier ≡ true)
        × (e'.samples ≡ [])
        × (e'.sample_index ≡ 0)
        × (e'.b ≡ pos 0))
get_offset-add_sample_example = get_offset-add_sample integers blank sample blank-IsValid
