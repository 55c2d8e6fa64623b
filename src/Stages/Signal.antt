-- ===== src/Stages/Signal.antt =====
-- The RSSI and SNR accumulators that the two rollup stages share, field by field the same in
-- `observerAccum` (internal/project/stages/rollup_observer.go) and `neighborAccum`
-- (internal/project/stages/rollup_neighbor.go). `nRSSI` and the like count packets and stay far
-- below 2^63; `sumRSSI` is an int64 sum with its wrap-around.
pub mod Bounds
use mesh_bug.Prelude.{ℕ, ◌+◌, Option, none, some, if◌then◌else◌, ltb}
use mesh_bug.Prelude.Ints.{ℤ, pos, ltb_ℤ, add64}
use mesh_bug.Event.{FloatOps}

pub record Signal (F : Type 0) : Type 0 where
  pub sum_rssi : ℤ
  pub n_rssi : ℕ
  pub min_rssi : Option ℤ
  pub max_rssi : Option ℤ
  pub sum_snr : F
  pub n_snr : ℕ

-- if acc == nil || v < *acc { acc = v }
unfoldable pub lower : ℤ → Option ℤ → Option ℤ
lower v none = some v
lower v (some m) = if ltb_ℤ v m then some v else some m

-- if acc == nil || v > *acc { acc = v }
unfoldable pub higher : ℤ → Option ℤ → Option ℤ
higher v none = some v
higher v (some m) = if ltb_ℤ m v then some v else some m

-- a bound of a row merged into the accumulator's, if the row has one
abbrev pub load_bound : (ℤ → Option ℤ → Option ℤ) → Option ℤ → Option ℤ → Option ℤ
load_bound pick none acc = acc
load_bound pick (some v) acc = pick v acc

module _ {F : Type 0} (fl : FloatOps F) where
  open fl use {zero_float, add_float, mul_float, div_float, of_int, to_int}

  abbrev pub no_signal : Signal F
  no_signal = record {
    sum_rssi = pos 0;
    n_rssi = 0;
    min_rssi = none;
    max_rssi = none;
    sum_snr = zero_float;
    n_snr = 0;
  }

  unfoldable pub hear_rssi : Option ℤ → Signal F → Signal F
  unfolding lower higher
  hear_rssi none s = s
  hear_rssi (some v) s = record s {
    sum_rssi = add64 s.sum_rssi v;
    n_rssi = s.n_rssi + 1;
    min_rssi = lower v s.min_rssi;
    max_rssi = higher v s.max_rssi;
  }

  unfoldable pub hear_snr : Option F → Signal F → Signal F
  hear_snr none s = s
  hear_snr (some v) s = record s { sum_snr = add_float s.sum_snr v; n_snr = s.n_snr + 1 }

  -- float64(sumRSSI) / float64(nRSSI), if any was heard
  unfoldable pub avg_rssi : Signal F → Option F
  avg_rssi s =
      if ltb 0 s.n_rssi then some (div_float (of_int s.sum_rssi) (of_int (pos s.n_rssi))) else none

  unfoldable pub avg_snr : Signal F → Option F
  avg_snr s = if ltb 0 s.n_snr then some (div_float s.sum_snr (of_int (pos s.n_snr))) else none

  -- what a row's average and count give back: sum ≈ avg * packets
  abbrev pub load_avg_rssi : Option F → ℕ → Signal F → Signal F
  load_avg_rssi none n s = s
  load_avg_rssi (some avg) n s =
      if ltb 0 n
      then record s {
        sum_rssi = add64 s.sum_rssi (to_int (mul_float avg (of_int (pos n))));
        n_rssi = s.n_rssi + n;
      }
      else s

  abbrev pub load_avg_snr : Option F → ℕ → Signal F → Signal F
  load_avg_snr none n s = s
  load_avg_snr (some avg) n s =
      if ltb 0 n
      then record s {
        sum_snr = add_float s.sum_snr (mul_float avg (of_int (pos n)));
        n_snr = s.n_snr + n;
      }
      else s

  -- the merge of a row's columns in `loadRowTotals` and in `rehydrateUnloaded`
  unfoldable pub load_signal : Option F → Option ℤ → Option ℤ → Option F → ℕ → Signal F → Signal F
  unfolding lower higher
  load_signal avg lo hi snr n s =
      let a = load_avg_rssi avg n s in
      let b = record a {
        min_rssi = load_bound lower lo a.min_rssi;
        max_rssi = load_bound higher hi a.max_rssi;
      } in
      load_avg_snr snr n b
