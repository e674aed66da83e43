-- ===== src/Bitrate/Window.antt =====
-- The frames and the sliding window of samples in bitrate_controller.cpp.
use wivrn_nx_windows.Base.{
  ℕ, ◌+◌, ◌-◌, ◌%◌, min, Bool, true, false, not, ◌&&◌, ◌||◌, ltb, leb, ◌==◌, if◌then◌else◌, List,
  [], ◌∷◌, ◌++◌, length, get_or, set,
}
use wivrn_nx_windows.Base.Int.{pos}
use wivrn_nx_windows.Bitrate.{
  Doubles, aimd, bbr, FrameState, no_frame, no_index, Sample, Stats, Controller, mode,
  window_duration, estimator_window, frame_ring_size,
}
use wivrn_nx_windows.Bitrate.Filter.{update}

-- The frame in slot `i` of the ring.
abbrev pub frame_at : List FrameState → ℕ → FrameState
frame_at frames i = get_or frames i no_frame

module _ {D : Type 0} where
  -- The common part of `on_frame_bytes` and `on_feedback`: whether the frame is still being
  -- collected, and the ring with its slot made ready.
  unfoldable pub seen : Controller D → ℕ → Controller D × Bool
  seen c frame_index =
      if not c.ring.has_frames || ltb c.ring.newest_frame frame_index
      then (
        record c { ring = record (c.ring) { newest_frame = frame_index; has_frames = true } },
        true,
      )
      else (c, not (leb (frame_index + frame_ring_size) c.ring.newest_frame))

  unfoldable pub drop_old : ℕ → List (Sample D) → List (Sample D)
  drop_old now [] = []
  drop_old now (s ∷ ss) =
      let rest = drop_old now ss in if ltb (s.when + window_duration) now then rest else s ∷ ss

  -- What the samples that the test takes measure.
  pub collected : {A : Type 0} → (Sample D → Bool) → (Sample D → A) → List (Sample D) → List A
  collected keep read [] = []
  collected keep read (s ∷ ss) =
      let rest = collected keep read ss in if keep s then read s ∷ rest else rest

module _ {D : Type 0} (d : Doubles D) where
  abbrev pub nat : ℕ → D
  nat n = d.of_int (pos n)

  -- `std::max` and `std::min` on doubles.
  abbrev pub max_of : D → D → D
  max_of a b = if d.lt a b then b else a

  abbrev pub min_of : D → D → D
  min_of a b = if d.lt b a then b else a

  unfoldable pub min_loaded_wire_ns : Controller D → ℕ
  min_loaded_wire_ns c =
      let paced = d.mul (d.decimal 30 2) c.pacing_window in
      let fraction = if d.lt (nat 0) c.pacing_window then paced else d.decimal 10 2 in
      if c.frame_period == 0 then 0 else d.to_nat (d.mul fraction (nat c.frame_period))

  unfoldable pub delivery_rate : FrameState → ℕ → D
  delivery_rate frame wire_ns =
      d.div (d.mul (d.decimal 8_000_000_000 0) (nat frame.bytes)) (nat wire_ns)

  -- A frame that loaded the link tells the estimator how fast it went.
  unfoldable pub measure : Controller D → FrameState → ℕ → Controller D × D
  measure c frame now =
      let wire_ns = frame.last - frame.first in
      let rate = delivery_rate frame wire_ns in
      let measured = record c {
        estimator = record (c.estimator) {
          bandwidth = update d c.estimator.bandwidth rate now estimator_window;
          bandwidth_samples = c.estimator.bandwidth_samples + 1;
          last_bandwidth_sample = now;
        };
      } in
      let loaded =
        ltb 0 wire_ns && (not (frame.bytes == 0)) && leb (min_loaded_wire_ns c) wire_ns in
      elim (mode c) [ aimd ↦ (c, nat 0) | bbr ↦ if loaded then (measured, rate) else (c, nat 0) ]

  -- A frame becomes a sample. Its slot is emptied, or left alone if it is empty.
  unfoldable pub close_frame : Controller D → ℕ → ℕ → Controller D
  unfolding measure
  close_frame c i now =
      let frame = frame_at c.ring.frames i in
      let fresh = leb c.ring.stale_before frame.index in
      let wire_ns = frame.last - frame.first in
      let lost_sample : Sample D = record {
        when = now;
        utilisation = nat 0;
        lost = true;
        late = frame.late;
        rate = nat 0;
      } in
      let (measured, rate) = measure c frame now in
      let sample : Sample D = record {
        when = now;
        utilisation = d.to_float (d.div (nat wire_ns) (nat c.frame_period));
        lost = false;
        late = frame.late;
        rate = rate;
      } in
      let told =
        if frame.lost
        then (if fresh then record c { window = c.window ++ (lost_sample ∷ []) } else c)
        else if frame.valid
            && not (frame.first == 0)
            && leb frame.first frame.last
            && ltb 0 c.frame_period
        then (if fresh
            then record measured { window = measured.window ++ (sample ∷ []) }
            else measured)
        else c in
      if frame.index == no_index
      then c
      else record told { ring = record (told.ring) { frames = set told.ring.frames i no_frame } }

  unfoldable pub opened : Controller D → ℕ → ℕ → Controller D
  unfolding close_frame
  opened c frame_index now =
      let i = frame_index % frame_ring_size in
      let closed = close_frame c i now in
      let renamed : FrameState = record (frame_at closed.ring.frames i) { index = frame_index } in
      if (frame_at c.ring.frames i).index == frame_index then c else record closed {
        ring = record (closed.ring) { frames = set closed.ring.frames i renamed };
      }

  pub sorted_in : D → List D → List D
  sorted_in x [] = x ∷ []
  sorted_in x (y ∷ ys) = let rest = sorted_in x ys in if d.lt y x then y ∷ rest else x ∷ y ∷ ys

  pub sorted : List D → List D
  unfolding sorted_in
  sorted [] = []
  sorted (x ∷ xs) = sorted_in x (sorted xs)

  -- The value at nine tenths of the list in order, as `std::nth_element` puts it there.
  pub high_percentile : List D → D
  unfolding sorted
  high_percentile xs =
      let n = min (length xs - 1) (d.to_nat (d.mul (d.decimal 9 1) (nat (length xs)))) in
      get_or (sorted xs) n (nat 0)

  unfoldable pub analyse : Controller D → ℕ → Controller D × Stats D
  unfolding drop_old collected high_percentile
  analyse c now =
      let window = drop_old now c.window in
      let lost = length (collected (λ s. s.lost) (λ s. s.when) window) in
      let utilisation = high_percentile (collected (λ s. not s.lost) (λ s. s.utilisation) window) in
      let rates = collected (λ s. d.lt (nat 0) s.rate) (λ s. s.rate) window in
      (
        record c { window = window },
        record {
          utilisation = if lost == 0 then utilisation else max_of utilisation (d.decimal 100 2);
          lost = lost;
          late = length (collected (λ s. s.late) (λ s. s.when) window);
          count = length window;
          rate = high_percentile rates;
          rate_count = length rates;
        },
      )
