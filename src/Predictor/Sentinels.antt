-- ===== src/Predictor/Sentinels.antt =====
-- The sentinels of the time points never take part in a subtraction, and what a period adds.
use fa_st_manager.Predictor.Keeper.{add}
use fa_st_manager.Common.{
  ℕ, ◌-◌, ◌^◌, ◌<◌, ◌≡◌, true, false, List, [], ◌∷◌, arith, not, ◌||◌, if◌then◌else◌,
}
use fa_st_manager.Common.Int.{pos, eqb_ℤ}
use fa_st_manager.Double.{Double}
use fa_st_manager.Predictor.Period.{
  Predictor, tp_min, record_start, ongoing_unmerged, predictor, record_stop, ongoing_merged,
  predict_unmerged, predict_merged, interrupt, ms_between, reset, set_upperbound,
}

-- The calls of the public member functions, with the reading of the clock.
pub data Event {ℓ} (W : Type ℓ) : Type ℓ where
  starts : (t : ℕ) → Event W
  stops : (t : ℕ) → Event W
  unmerged : (t : ℕ) → Event W
  merged : (t : ℕ) → Event W
  interrupts : Event W
  resets : Event W
  bounds : W → Event W

-- The clock is short of the greatest `int64_t`.
abbrev pub IsClock {ℓ} : {W : Type ℓ} → Event W → Type 0
IsClock (starts t) = t < 2 ^ 63 - 1
IsClock (stops t) = t < 2 ^ 63 - 1
IsClock _ = Unit

abbrev pub AllClock {ℓ} : {W : Type ℓ} → List (Event W) → Type 0
AllClock [] = Unit
AllClock (e ∷ es) = IsClock e × AllClock es

module _ {ℓ} {W : Type ℓ} ⦃d : Double W⦄ where
  unfoldable pub step : Event W → Predictor W → Predictor W
  step (starts t) p = record_start (pos t) p
  step (stops t) p = record_stop (pos t) p
  step (unmerged t) p = (predict_unmerged (pos t) p).1
  step (merged t) p = (predict_merged (pos t) p).1
  step interrupts p = interrupt p
  step resets p = reset p
  step (bounds b) p = set_upperbound b p

  unfoldable pub steps : List (Event W) → Predictor W → Predictor W
  steps [] p = p
  steps (e ∷ es) p = steps es (step e p)

  -- A running period runs inside a long period, and between two periods of a long period its end is
  -- known.
  pub record Inv (p : Predictor W) : Type 0 where
    pub inside : ongoing_unmerged p ≡ true → ongoing_merged p ≡ true
    pub ended :
        ongoing_unmerged p ≡ false
        → ongoing_merged p ≡ true
        → eqb_ℤ p.long_period_end tp_min ≡ false

  step-Inv : (e : Event W) (p : Predictor W) → IsClock e → Inv p → Inv (step e p)
  unfolding step record_start record_stop predict_unmerged predict_merged interrupt reset
      set_upperbound
  step-Inv (starts t) p c v = ground (arith, v.inside, v.ended)
  step-Inv (stops t) p c v = ground (arith, v.inside, v.ended)
  step-Inv (unmerged t) p c v = ground (arith, v.inside, v.ended)
  step-Inv (merged t) p c v = ground (arith, v.inside, v.ended)
  step-Inv interrupts p c v = ground arith
  step-Inv resets p c v = ground arith
  step-Inv (bounds b) p c v = ground (arith, v.inside, v.ended)

  steps-Inv : (es : List (Event W)) (p : Predictor W) → AllClock es → Inv p → Inv (steps es p)
  unfolding steps
  steps-Inv [] p c v = v
  steps-Inv (e ∷ es) p c v = steps-Inv es (step e p) c.1 (step-Inv e p c.0 v)

  predictor-Inv : (thres : W) → Inv (predictor thres)
  unfolding predictor
  predictor-Inv thres = ground arith

  -- After any calls on a new predictor a running period lies in a long period, and if no period runs
  -- in an open long period, the end of that long period is not the sentinel. So neither `record_stop`
  -- nor the test of the gap in `record_start` depends on a difference with a sentinel.
  pub steps-predictor-Inv :
      (thres : W) (es : List (Event W)) → AllClock es → Inv (steps es (predictor thres))
  steps-predictor-Inv thres es c = steps-Inv es (predictor thres) c (predictor-Inv thres)

  -- A period from `a` to `b`, on a predictor where none runs, adds its length to the records of
  -- periods, and to the records of long periods the time since the long period began: that is `a` if
  -- no long period is open or the gap before `a` exceeds the threshold.
  pub period_records :
      (p : Predictor W) (a b : ℕ)
      → a < 2 ^ 63 - 1
      → ongoing_unmerged p ≡ false
      → let q = record_stop (pos b) (record_start (pos a) p) in
        let fresh =
          not (ongoing_merged p) || d.lt p.merge_thres (ms_between (pos a) p.long_period_end) in
        let begin = if fresh then pos a else p.long_period_begin in
        (q.normal_records ≡ add (ms_between (pos b) (pos a)) (pos b) p.normal_records)
        × (q.long_records ≡ add (ms_between (pos b) begin) (pos b) p.long_records)
        × (q.long_period_begin ≡ begin)
        × (q.long_period_end ≡ pos b)
        × (ongoing_unmerged q ≡ false)
  unfolding record_start record_stop
  period_records p a b h idle = ground arith
