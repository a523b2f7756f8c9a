-- ===== src/Tests/Predictor.antt =====
-- The theorems about the predictor, at short runs.
use fa_st_manager.Predictor.Survivors.{Among}
use fa_st_manager.Common.Int.{pos, ltb_ℤ}
use fa_st_manager.Double.{Thousandths, thousandths, Thousandths-IsOrdered}
use fa_st_manager.Predictor.Window.{Call, run, adds, drops, run_window, run-max}
use fa_st_manager.Predictor.Keeper.{get_max, add}
use fa_st_manager.Predictor.Sentinels.{
  Event, Inv, steps, starts, stops, steps-predictor-Inv, merged, interrupts, period_records,
}
use fa_st_manager.Predictor.Period.{
  Predictor, predictor, record_stop, record_start, ongoing_merged, ms_between, ongoing_unmerged,
}
use fa_st_manager.Common.{
  List, [], ◌∷◌, false, refl, All, arith, not, ◌≡◌, ◌||◌, ◌⊎◌, if◌then◌else◌,
}

abbrev calls_of_test : List (Call Thousandths)
calls_of_test =
    adds (pos 5) 1000 ∷ adds (pos 3) 2000 ∷ drops 5_000_000 ∷ adds (pos 4) 6_000_000 ∷ []

run-max_example :
    let top = get_max (run calls_of_test (record { valid_time = pos 3; records = [] })) in
    let window = run_window (pos 3) calls_of_test [] in
    All (λ q. ltb_ℤ top q.1 ≡ false) window × (((window ≡ []) × (top ≡ pos 0)) ⊎ Among top window)
run-max_example = run-max Thousandths-IsOrdered (pos 3) calls_of_test (
  omega arith,
  omega arith,
  (omega arith, omega arith, (omega arith, omega arith, (omega arith, omega arith, tt))),
)

abbrev events_of_test : List (Event Thousandths)
events_of_test = starts 1000 ∷ stops 2000 ∷ starts 3000 ∷ merged 3500 ∷ interrupts ∷ []

steps-predictor-Inv_example : Inv (steps events_of_test (predictor (pos 2000)))
steps-predictor-Inv_example =
    steps-predictor-Inv (pos 2000) events_of_test
      (omega arith, (omega arith, (omega arith, (tt, (tt, tt)))))

abbrev fresh_predictor : Predictor Thousandths
fresh_predictor = predictor (pos 2000)

period_records_example :
    let q = record_stop (pos 9000) (record_start (pos 4000) fresh_predictor) in
    let fresh =
      not (ongoing_merged fresh_predictor)
      || ltb_ℤ fresh_predictor.merge_thres
          (ms_between (pos 4000) fresh_predictor.long_period_end) in
    let begin = if fresh then pos 4000 else fresh_predictor.long_period_begin in
    (q.normal_records
      ≡ add (ms_between (pos 9000) (pos 4000)) (pos 9000) fresh_predictor.normal_records)
    × (q.long_records ≡ add (ms_between (pos 9000) begin) (pos 9000) fresh_predictor.long_records)
    × (q.long_period_begin ≡ begin)
    × (q.long_period_end ≡ pos 9000)
    × (ongoing_unmerged q ≡ false)
unfolding predictor
period_records_example = period_records fresh_predictor 4000 9000 (omega arith) refl
