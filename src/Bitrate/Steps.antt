-- ===== src/Bitrate/Steps.antt =====
-- What `on_feedback` and `on_wifi_state` of bitrate_controller.cpp do to the bitrate.
use wivrn_nx_windows.Base.{
  either, ℕ, ◌+◌, ◌%◌, ◌≡◌, Bool, false, not, ◌||◌, ltb, leb, ◌==◌, if◌then◌else◌, Option, none,
  arith, set,
}
use wivrn_nx_windows.Base.Int.{ℤ, pos_part}
use wivrn_nx_windows.Bitrate.{
  Doubles, Stats, Mode, aimd, bbr, Feedback, Controller, mode, clamp, flush, evaluation_interval,
  min_samples, video_stream_count, frame_ring_size, FrameState,
}
use wivrn_nx_windows.Bitrate.Window.{frame_at, measure, close_frame, seen, opened, analyse}
use wivrn_nx_windows.Bitrate.RadioTrend.{Trend, analyse_radio}
use wivrn_nx_windows.Bitrate.Aimd.{evaluate_aimd}
use wivrn_nx_windows.Bitrate.Bandwidth.{evaluate_bbr}
use wivrn_nx_windows.Bitrate.Control.{
  enabled, on_frame_bytes, reported, release_stale, evaluate, on_feedback,
}
use wivrn_nx_windows.Bitrate.Wifi.{
  heard, falling, starved, release_rising, release_stable, stepped, preempt, rebounding, on_trend,
  on_wifi_state,
}
use wivrn_nx_windows.Bitrate.Range.{
  InRange, SameRates, SameLimits, Decides, InRange-same, Decides-from, SameRates-refl,
  SameRates-trans, Decides-same,
}
use wivrn_nx_windows.Bitrate.Bounds.{evaluate_aimd-Decides, evaluate_bbr-Decides}

module _ {D : Type 0} (d : Doubles D) where
  measure-SameRates :
      (c : Controller D) (frame : FrameState) (now : ℕ) → SameRates c (measure d c frame now).0
  unfolding measure
  measure-SameRates c frame now = ground arith

  close_frame-SameRates : (c : Controller D) (i now : ℕ) → SameRates c (close_frame d c i now)
  unfolding close_frame
  close_frame-SameRates c i now = ground (arith, measure-SameRates c (frame_at c.ring.frames i) now)

  pub seen-SameRates : (c : Controller D) (frame_index : ℕ) → SameRates c (seen c frame_index).0
  unfolding seen
  seen-SameRates c frame_index = ground arith

  pub opened-SameRates :
      (c : Controller D) (frame_index now : ℕ) → SameRates c (opened d c frame_index now)
  unfolding opened
  opened-SameRates c frame_index now =
      ground (arith, close_frame-SameRates c (frame_index % frame_ring_size) now)

  release_stale-SameRates : (c : Controller D) (now : ℕ) → SameRates c (release_stale c now)
  unfolding release_stale
  release_stale-SameRates c now = ground arith

  pub on_frame_bytes-SameRates :
      (c : Controller D) (frame_index stream_index bytes now : ℕ)
      → SameRates c (on_frame_bytes d c frame_index stream_index bytes now)
  unfolding on_frame_bytes
  on_frame_bytes-SameRates c frame_index stream_index bytes now =
      let c1 = (seen c frame_index).0 in
      ground (arith, seen-SameRates c frame_index, opened-SameRates c1 frame_index now)

  law-Decides :
      (c : Controller D) (law : Mode) (now : ℕ) (s : Stats D)
      → InRange c
      → mode c ≡ law
      → Decides c (elim law [ aimd ↦ evaluate_aimd d c now s | bbr ↦ evaluate_bbr d c now s ])
  law-Decides c aimd now s h m = evaluate_aimd-Decides d c now s h m
  law-Decides c bbr now s h m = evaluate_bbr-Decides d c now s h m

  -- What holds of a state with the same rates, whatever the guards of `evaluate` do, holds of its
  -- answer.
  pub evaluate_branches :
      (answers : Controller D × Option ℕ → Type 0) (c : Controller D) (now : ℕ)
      → ((c' : Controller D) → SameRates c c' → answers (c', none))
      → ((c' : Controller D) (s : Stats D)
          → SameRates c c'
          → answers
              (elim (mode c) [ aimd ↦ evaluate_aimd d c' now s | bbr ↦ evaluate_bbr d c' now s ]))
      → answers (evaluate d c now)
  unfolding evaluate analyse
  evaluate_branches answers c now kept decides =
      let timed : Controller D = record c { last_evaluation = now } in
      let c1 = release_stale timed now in
      let (c2, s) = analyse d c1 now in
      let same : SameRates c c2 = release_stale-SameRates timed now in
      let decided : Controller D × Option ℕ = elim (mode c) [
        | aimd ↦ evaluate_aimd d c2 now s
        | bbr ↦ evaluate_bbr d c2 now s
      ] in
      either answers (ltb now (c.last_evaluation + evaluation_interval)) (c, none)
        (if ltb s.count min_samples then (c2, none) else decided) (kept c (SameRates-refl c))
        (either answers (ltb s.count min_samples) (c2, none) decided (kept c2 same)
          (decides c2 s same))

  -- The same of `on_feedback`.
  pub on_feedback_branches :
      (answers : Controller D × Option ℕ → Type 0) (c : Controller D) (f : Feedback) (period_ns : ℤ)
      (streaming : Bool) (now : ℕ)
      → ((c' : Controller D) → SameRates c c' → answers (c', none))
      → ((c' : Controller D) → SameRates c c' → answers (evaluate d c' now))
      → answers (on_feedback d c f period_ns streaming now)
  unfolding on_feedback
  on_feedback_branches answers c f period_ns streaming now kept evaluates =
      let c0 : Controller D = record c { frame_period = pos_part period_ns } in
      let (c1, collecting) = seen c0 f.frame_index in
      let c2 = opened d c1 f.frame_index now in
      let i = f.frame_index % frame_ring_size in
      let told : Controller D = record c2 {
        ring = record (c2.ring) {
          frames = set c2.ring.frames i (reported (frame_at c2.ring.frames i) f);
        };
      } in
      let same1 : SameRates c c1 = seen-SameRates c0 f.frame_index in
      let same2 : SameRates c told =
        SameRates-trans c c1 c2 same1 (opened-SameRates c1 f.frame_index now) in
      let off = not (enabled c) || not streaming || c.ceiling == 0 || pos_part period_ns == 0 in
      let unknown = leb video_stream_count f.stream_index in
      let unchanged = kept c (SameRates-refl c) in
      either answers off (c, none)
        (if unknown then (c, none) else if not collecting then (c1, none) else evaluate d told now)
        unchanged
        (either answers unknown (c, none)
          (if not collecting then (c1, none) else evaluate d told now) unchanged
          (either answers (not collecting) (c1, none) (evaluate d told now) (kept c1 same1)
            (evaluates told same2)))

  pub evaluate-Decides : (c : Controller D) (now : ℕ) → InRange c → Decides c (evaluate d c now)
  evaluate-Decides c now h =
      evaluate_branches (Decides c) c now (λ c' same. Decides-same c c' same h)
        (λ c' s same.
          let (there, law) = InRange-same c c' same h in
          Decides-from c c'
            (elim (mode c) [ aimd ↦ evaluate_aimd d c' now s | bbr ↦ evaluate_bbr d c' now s ]) same
            (law-Decides c' (mode c) now s there law))

  pub on_feedback-Decides :
      (c : Controller D) (f : Feedback) (period_ns : ℤ) (streaming : Bool) (now : ℕ)
      → InRange c
      → Decides c (on_feedback d c f period_ns streaming now)
  on_feedback-Decides c f period_ns streaming now h =
      on_feedback_branches (Decides c) c f period_ns streaming now
        (λ c' same. Decides-same c c' same h)
        (λ c' same.
          Decides-from c c' (evaluate d c' now) same
            (evaluate-Decides c' now (InRange-same c c' same h).0))

  stepped-Decides :
      (c : Controller D) (now : ℕ)
      → InRange c
      → rebounding c ≡ false
      → InRange (stepped d c now) × SameLimits c (stepped d c now)
  unfolding stepped rebounding clamp
  stepped-Decides c now h r = ground arith

  preempt-Decides :
      (c : Controller D) (now : ℕ) → InRange c → rebounding c ≡ false → Decides c (preempt d c now)
  unfolding preempt flush
  preempt-Decides c now h r = ground (arith, stepped-Decides c now h r)

  on_trend-Decides :
      (c : Controller D) (t : Trend D) (now : ℕ)
      → InRange c
      → rebounding c ≡ false
      → Decides c (on_trend d c t now)
  unfolding on_trend rebounding
  on_trend-Decides c t now h r =
      let degrading = falling d t || starved d t c.bitrate in
      let radio = release_stable d (release_rising d c.radio t) t degrading now in
      ground (arith, preempt-Decides (record c { radio = radio }) now h r)

  pub on_wifi_state-Decides :
      (c : Controller D) (rssi_dbm link_speed_mbps : ℤ) (now : ℕ)
      → InRange c
      → Decides c (on_wifi_state d c rssi_dbm link_speed_mbps now)
  unfolding on_wifi_state rebounding
  on_wifi_state-Decides c rssi_dbm link_speed_mbps now h =
      let r = heard d c.radio rssi_dbm link_speed_mbps now in
      let (samples, trend) = analyse_radio d r.samples now in
      let c1 : Controller D = record c { radio = record r { samples = samples } } in
      ground (arith, on_trend-Decides c1 trend now h)
