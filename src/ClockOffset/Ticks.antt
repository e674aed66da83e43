-- ===== src/ClockOffset/Ticks.antt =====
-- The two directions between counter ticks and nanoseconds in clock_offset.cpp.
use wivrn_nx_windows.Base.{ℕ, ◌+◌, ◌*◌, ◌/◌, ◌^◌, ◌≤◌, ◌<◌, ◌≡◌, arith}
use wivrn_nx_windows.Base.Int.{ℤ, pos, int_laws}
use wivrn_nx_windows.ClockOffset.{
  second, as_int64, qpc_to_ns, ns_to_qpc, ClockOffset, from_headset, to_headset,
}

-- The cast keeps what `int64_t` holds.
as_int64_small : (n : ℕ) → n < 2 ^ 63 → as_int64 n ≡ pos n
unfolding as_int64
as_int64_small n h = ground arith

back_small :
    (frequency ns : ℕ)
    → frequency ≤ second
    → ns < 2 ^ 63
    → ns_to_qpc frequency (pos ns) ≡ ns * frequency / second
unfolding ns_to_qpc
back_small frequency ns slow fits =
    let less : ns * frequency / second ≤ ns = grind arith in ground arith

round_trip :
    (frequency qpc : ℕ)
    → frequency ≤ second
    → qpc * second / frequency < 2 ^ 63
    → ns_to_qpc frequency (qpc_to_ns frequency qpc) ≡ qpc * second / frequency * frequency / second
unfolding qpc_to_ns
round_trip frequency qpc slow fits =
    rw (as_int64_small (qpc * second / frequency) fits)
      (back_small frequency (qpc * second / frequency) slow fits)

-- Ticks turned into nanoseconds and back lose one tick at most, where the counter is no faster than
-- a tick each nanosecond and its time fits a signed 64-bit number of nanoseconds.
pub ns_to_qpc-qpc_to_ns :
    (frequency qpc : ℕ)
    → 0 < frequency
    → frequency ≤ second
    → qpc * second < 2 ^ 63 * frequency
    → (ns_to_qpc frequency (qpc_to_ns frequency qpc) ≤ qpc)
      × (qpc ≤ ns_to_qpc frequency (qpc_to_ns frequency qpc) + 1)
ns_to_qpc-qpc_to_ns frequency qpc positive slow fits =
    let small : qpc * second / frequency < 2 ^ 63 = grind arith in
    rw (round_trip frequency qpc slow small) (grind arith, grind arith)

-- A time of either clock comes back from the other, whatever the offset.
pub from_headset-to_headset :
    (o : ClockOffset) (t : ℤ)
    → (from_headset o (to_headset o t) ≡ t) × (to_headset o (from_headset o t) ≡ t)
unfolding from_headset to_headset
from_headset-to_headset o t = (omega int_laws, omega int_laws)
