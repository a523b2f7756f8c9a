-- ===== src/Predictor/Period.antt =====
-- `Predictor`: it measures periods, and long periods made of periods with short gaps between. Each
-- operation takes the clock reading of its `steady_clock::now()`. The mutex makes each one atomic.
use fa_st_manager.Common.{◌-◌, ◌^◌, Bool, not, ◌||◌, if◌then◌else◌, []}
use fa_st_manager.Common.Int.{ℤ, pos, negsuc, eqb_ℤ, wrap64, div_ℤ, ◌-ℤ◌}
use fa_st_manager.Double.{Double}
use fa_st_manager.Predictor.Keeper.{Keeper, add, drop_outdated, get_max, clear}

-- `timepoint_t::max()` and `timepoint_t::min()`
abbrev pub tp_max : ℤ
tp_max = pos (2 ^ 63 - 1)

abbrev pub tp_min : ℤ
tp_min = negsuc (2 ^ 63 - 1)

abbrev pub predict_max_keep : ℤ
predict_max_keep = pos 3000

pub record Predictor {ℓ} (W : Type ℓ) : Type ℓ where
  pub merge_thres : W
  pub period_begin : ℤ
  pub long_period_begin : ℤ
  pub long_period_end : ℤ
  pub normal_records : Keeper W
  pub long_records : Keeper W
  pub upperbound : W

module _ {ℓ} {W : Type ℓ} ⦃d : Double W⦄ where
  abbrev pub keeper : ℤ → Keeper W
  keeper valid = record { valid_time = valid; records = [] }

  unfoldable pub predictor : W → Predictor W
  predictor thres = record {
    merge_thres = thres;
    period_begin = tp_max;
    long_period_begin = tp_max;
    long_period_end = tp_min;
    normal_records = keeper predict_max_keep;
    long_records = keeper predict_max_keep;
    upperbound = d.greatest;
  }

  -- `duration_cast<microseconds>(a - b).count() / 1e3`
  unfoldable pub ms_between : ℤ → ℤ → W
  unfolding ◌-ℤ◌
  ms_between a b = d.from_us (div_ℤ (wrap64 (a -ℤ b)) 1000)

  abbrev pub ongoing_unmerged : Predictor W → Bool
  ongoing_unmerged p = not (eqb_ℤ p.period_begin tp_max)

  abbrev pub ongoing_merged : Predictor W → Bool
  ongoing_merged p = not (eqb_ℤ p.long_period_begin tp_max)

  -- The branch of `record_stop` for a period that is under way.
  abbrev pub stopped : ℤ → Predictor W → Predictor W
  stopped tp p = record p {
    normal_records = add (ms_between tp p.period_begin) tp p.normal_records;
    long_period_end = tp;
    long_records = add (ms_between tp p.long_period_begin) tp p.long_records;
  }

  unfoldable pub record_stop : ℤ → Predictor W → Predictor W
  record_stop tp p =
      let q = if ongoing_unmerged p then stopped tp p else p in record q { period_begin = tp_max }

  -- The branch of `record_start` that opens a new long period.
  abbrev pub restarted : ℤ → Predictor W → Predictor W
  restarted now p = record p { long_period_begin = now; long_period_end = tp_min }

  unfoldable pub record_start : ℤ → Predictor W → Predictor W
  record_start now p =
      if not (ongoing_unmerged p)
      then (let q = record p { period_begin = now } in
          let intv = ms_between now p.long_period_end in
          if not (ongoing_merged q) || d.lt q.merge_thres intv then restarted now q else q)
      else p

  unfoldable pub interrupt : Predictor W → Predictor W
  interrupt p = record p {
    period_begin = tp_max;
    long_period_begin = tp_max;
    long_period_end = tp_min;
  }

  unfoldable pub predict_unmerged : ℤ → Predictor W → W × Predictor W
  predict_unmerged now p =
      let k = drop_outdated now p.normal_records in (get_max k, record p { normal_records = k })

  unfoldable pub predict_merged : ℤ → Predictor W → W × Predictor W
  predict_merged now p =
      let k = drop_outdated now p.long_records in (get_max k, record p { long_records = k })

  unfoldable pub set_upperbound : W → Predictor W → Predictor W
  set_upperbound bound p = record p { upperbound = bound }

  unfoldable pub reset : Predictor W → Predictor W
  reset p = record p {
    normal_records = clear p.normal_records;
    long_records = clear p.long_records;
    period_begin = tp_max;
    long_period_begin = tp_max;
    long_period_end = tp_min;
  }
