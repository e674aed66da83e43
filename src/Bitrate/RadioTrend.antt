-- ===== src/Bitrate/RadioTrend.antt =====
-- The trend of the Wi-Fi signal in bitrate_controller.cpp.
use wivrn_nx_windows.Base.{
  ℕ, ◌+◌, max, Bool, true, false, ◌||◌, ltb, if◌then◌else◌, List, [], ◌∷◌, length,
}
use wivrn_nx_windows.Base.Int.{pos, ◌-ℤ◌}
use wivrn_nx_windows.Bitrate.{Doubles, RadioSample, radio_trend_window, radio_min_samples}

pub record Trend (D : Type 0) : Type 0 where
  pub usable : Bool
  pub rssi_dbm : D
  pub slope_db_per_s : D
  pub span_s : D
  pub delta_db : D
  pub link_speed_mbps : ℕ
  pub link_speed_peak_mbps : ℕ

module _ {D : Type 0} where
  unfoldable pub drop_old : ℕ → List (RadioSample D) → List (RadioSample D)
  drop_old now [] = []
  drop_old now (s ∷ ss) =
      let rest = drop_old now ss in if ltb (s.when + radio_trend_window) now then rest else s ∷ ss

  pub peak : List (RadioSample D) → ℕ
  peak [] = 0
  peak (s ∷ ss) = max s.link_speed_mbps (peak ss)

  pub newest_of : RadioSample D → List (RadioSample D) → RadioSample D
  newest_of s [] = s
  newest_of s (t ∷ ts) = newest_of t ts

module _ {D : Type 0} (d : Doubles D) where
  abbrev pub zero_d : D
  zero_d = d.of_int (pos 0)

  -- `std::chrono::duration<double>` of the difference of two times.
  pub seconds : ℕ → ℕ → D
  seconds later earlier = d.div (d.of_int (pos later -ℤ pos earlier)) (d.decimal 1_000_000_000 0)

  -- The sum of `term` over the samples, from the left.
  unfoldable pub sum_by : (RadioSample D → D) → D → List (RadioSample D) → D
  sum_by term total [] = total
  sum_by term total (s ∷ ss) = sum_by term (d.add total (term s)) ss

  abbrev pub no_trend : D → Trend D
  no_trend span = record {
    usable = false;
    rssi_dbm = zero_d;
    slope_db_per_s = zero_d;
    span_s = span;
    delta_db = zero_d;
    link_speed_mbps = 0;
    link_speed_peak_mbps = 0;
  }

  -- The least squares line through the samples, of which `oldest` is the first.
  pub trend_of : RadioSample D → List (RadioSample D) → Trend D
  unfolding seconds sum_by peak newest_of
  trend_of oldest later =
      let all = oldest ∷ later in
      let newest = newest_of oldest later in
      let span = seconds newest.when oldest.when in
      let n = d.of_int (pos (length all)) in
      let mean_t = d.div (sum_by (λ s. seconds s.when oldest.when) zero_d all) n in
      let mean_y = d.div (sum_by (λ s. s.rssi_dbm) zero_d all) n in
      let dt : RadioSample D → D = λ s. d.sub (seconds s.when oldest.when) mean_t in
      let cov = sum_by (λ s. d.mul (dt s) (d.sub s.rssi_dbm mean_y)) zero_d all in
      let var = sum_by (λ s. d.mul (dt s) (dt s)) zero_d all in
      let slope = d.div cov var in
      if d.ge zero_d span || d.ge zero_d var then no_trend span else record {
        usable = true;
        rssi_dbm = newest.rssi_dbm;
        slope_db_per_s = slope;
        span_s = span;
        delta_db = d.mul slope span;
        link_speed_mbps = newest.link_speed_mbps;
        link_speed_peak_mbps = peak all;
      }

  unfoldable pub analyse_radio : List (RadioSample D) → ℕ → List (RadioSample D) × Trend D
  unfolding drop_old trend_of
  analyse_radio samples now =
      let kept = drop_old now samples in
      let trend : Trend D = elim kept [
        | [] ↦ no_trend zero_d
        | oldest ∷ later ↦ trend_of oldest later
      ] in
      (kept, if ltb (length kept) radio_min_samples then no_trend zero_d else trend)
