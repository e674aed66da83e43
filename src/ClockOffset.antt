-- ===== src/ClockOffset.antt =====
-- helper/src/wivrn/clock_offset.h and clock_offset.cpp: the performance counter in nanoseconds, and
-- the offset of the headset's clock.
--
-- The frequency of the counter is an argument, `QueryPerformanceFrequency`'s answer. A `double` is a
-- value of a type `D` with the operations that the code uses. Times of the steady clock are
-- nanoseconds since its epoch; their sums do not wrap in 64 bits.
pub mod Ticks
pub mod Samples
mod Tests
use wivrn_nx_windows.Base.{
  ℕ, zero, suc, ◌+◌, ◌-◌, ◌*◌, ◌/◌, ◌%◌, ◌^◌, Bool, true, false, ltb, ◌==◌, if◌then◌else◌, List, [],
  ◌∷◌, ◌++◌, length, set,
}
use wivrn_nx_windows.Base.Int.{ℤ, pos, negsuc, ◌+ℤ◌, ◌-ℤ◌, ◌*ℤ◌, ltb_ℤ}

abbrev pub second : ℕ
second = 1_000_000_000

-- The default stands in for a frequency of 0.
pub qpc_frequency : ℕ → ℕ
qpc_frequency answer = if answer == 0 then 10_000_000 else answer

-- The cast of a 128-bit integer that is not negative to `int64_t`.
pub as_int64 : ℕ → ℤ
as_int64 n =
    let word = n % 2 ^ 64 in if ltb word (2 ^ 63) then pos word else negsuc (2 ^ 64 - 1 - word)

-- The products of the two conversions are 128 bits wide, which 64 bits times 64 bits fit in.
pub qpc_to_ns : ℕ → ℕ → ℤ
unfolding as_int64
qpc_to_ns frequency qpc = as_int64 (qpc * second / frequency)

pub ns_to_qpc : ℕ → ℤ → ℕ
ns_to_qpc frequency (pos ns) = ns * frequency / second % 2 ^ 64
ns_to_qpc frequency (negsuc n) = 0

pub record ClockOffset : Type 0 where
  pub b : ℤ
  pub stable : Bool

pub from_headset : ClockOffset → ℤ → ℤ
from_headset o headset_ns = headset_ns -ℤ o.b

pub to_headset : ClockOffset → ℤ → ℤ
to_headset o server_ns = server_ns +ℤ o.b

-- `z & 1` in two's complement, where -(n + 1) is odd exactly if `n` is even.
pub low_bit : ℤ → Bool
low_bit (pos n) = n % 2 == 1
low_bit (negsuc n) = n % 2 == 0

-- `z & ~1`
pub clear_low_bit : ℤ → ℤ
clear_low_bit (pos n) = pos (n - n % 2)
clear_low_bit (negsuc n) = if n % 2 == 0 then negsuc (n + 1) else negsuc n

-- `z | 1`
pub set_low_bit : ℤ → ℤ
set_low_bit (pos n) = if n % 2 == 0 then pos (n + 1) else pos n
set_low_bit (negsuc n) = if n % 2 == 0 then negsuc n else negsuc (n - 1)

-- The quotient of `int64_t`, rounded towards 0, by a number that is not 0.
pub quotient : ℤ → ℕ → ℤ
quotient (pos n) k = pos (n / k)
quotient (negsuc n) k = pos 0 -ℤ pos ((n + 1) / k)

-- A `timesync_response` and when it came.
pub record Sample : Type 0 where
  pub query : ℤ
  pub response : ℤ
  pub received : ℤ

abbrev pub num_samples : ℕ
num_samples = 100

pub record Estimator : Type 0 where
  pub samples : List Sample
  pub sample_index : ℕ
  pub b : ℤ
  pub next_sample : ℕ
  pub sample_interval : ℕ

-- Doubles: `to_int` is the cast, `within` whether `std::abs` of the value is below 20'000'000.
pub record Doubles (D : Type 0) : Type 0 where
  pub of_int : ℤ → D
  pub to_int : D → ℤ
  pub half : D
  pub add : D → D → D
  pub sub : D → D → D
  pub mul : D → D → D
  pub inverse : ℕ → D
  pub within : D → Bool

pub should_sample : Estimator → ℕ → Estimator × Bool
should_sample e now =
    if ltb now e.next_sample
    then (e, false)
    else (record e { next_sample = now + e.sample_interval }, true)

pub reset : Estimator → Estimator
reset e = record {
  samples = [];
  sample_index = 0;
  b = pos 0;
  next_sample = 0;
  sample_interval = 10_000_000;
}

abbrev pub round_trip : Sample → ℤ
round_trip s = s.received -ℤ s.query

pub sum_latency : List Sample → ℤ
sum_latency [] = pos 0
sum_latency (s ∷ ss) = round_trip s +ℤ sum_latency ss

pub average_latency : List Sample → ℤ
unfolding sum_latency
average_latency ss = quotient (sum_latency ss) (length ss)

module _ {D : Type 0} (d : Doubles D) where
  -- The sum of `term` over the samples, from the left.
  pub sum_by : (Sample → D) → D → List Sample → D
  sum_by term total [] = total
  sum_by term total (s ∷ ss) = sum_by term (d.add total (term s)) ss

  abbrev pub middle : Sample → D
  middle s = d.mul (d.of_int (s.query +ℤ s.received)) d.half

  abbrev pub answer : Sample → D
  answer s = d.of_int s.response

  pub mean : (Sample → D) → List Sample → D
  unfolding sum_by
  mean term ss = d.mul (sum_by term (d.of_int (pos 0)) ss) (d.inverse (length ss))

  -- The offset that a full window gives.
  pub regression : List Sample → D
  unfolding mean
  regression ss =
      let x0 = mean middle ss in
      let y0 = mean answer ss in
      let mean_x = mean (λ s. d.sub (middle s) x0) ss in
      let mean_y = mean (λ s. d.sub (answer s) y0) ss in d.sub (d.add y0 (d.sub mean_y mean_x)) x0

  -- The second half of `add_sample`: the offset, with its low bit for whether it is stable.
  pub refit : Estimator → Estimator
  refit e =
      let early = d.to_int (d.sub (mean answer e.samples) (mean middle e.samples)) in
      let b = regression e.samples in
      let stable = d.within (d.sub b (d.of_int e.b)) in
      if ltb (length e.samples) num_samples
      then record e { b = clear_low_bit early }
      else record e { b = if stable then set_low_bit (d.to_int b) else clear_low_bit (d.to_int b) }

  pub add_sample : Estimator → Sample → Estimator
  unfolding refit
  add_sample e sample =
      let e1 = record e { sample_interval = 100_000_000 } in
      if ltb (length e.samples) num_samples
      then refit (record e { samples = e.samples ++ (sample ∷ []) })
      else if ltb_ℤ (pos 3 *ℤ average_latency e.samples) (round_trip sample)
      then e1
      else refit (record e1 {
        samples = set e.samples e.sample_index sample;
        sample_index = (e.sample_index + 1) % num_samples;
      })

pub get_offset : Estimator → ClockOffset
get_offset e = record { b = e.b; stable = low_bit e.b }
