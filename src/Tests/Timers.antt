-- ===== src/Tests/Timers.antt =====
-- The theorems about waits and the loop of the scheduler's `main`, and a history that is written.
use fa_st_manager.Common.{ℕ, [], ◌∷◌, refl, arith, ◌≡◌, ◌<◌, ◌≤◌, ◌+◌, ◌*◌, codes}
use fa_st_manager.Common.Int.{pos, ◌+ℤ◌, ◌-ℤ◌, ◌*ℤ◌}
use fa_st_manager.Double.{thousandths}
use fa_st_manager.Scheduler.Main.{dump_history}
use fa_st_manager.Scheduler.Timer.{get_timespec_after, get_timespec_after_lem, time_at}
use fa_st_manager.Timer.{Thousandths-IsRounding, giga, rounding}

-- 1.25 s after 7.9 s.
get_timespec_after_lem_example :
    (sec : ℕ) × (nsec : ℕ) × (get_timespec_after rounding (pos 1_250_000) (time_at 7 900_000_000)
      ≡ time_at sec nsec)
    × (nsec < giga)
    × (8 * giga + 1_150_000_000 ≤ sec * giga + nsec)
    × (sec * giga + nsec ≤ 8 * giga + 1_150_000_000)
unfolding ◌*ℤ◌ ◌-ℤ◌
get_timespec_after_lem_example =
    get_timespec_after_lem rounding Thousandths-IsRounding (pos 1_250_000) 7 900_000_000 1
      250_000_000 250_000_000 (omega arith) (omega arith) (omega arith) (omega arith) refl refl refl

wait_of_test :
    get_timespec_after rounding (pos 1_250_000) (time_at 7 900_000_000) ≡ time_at 9 150_000_000
unfolding get_timespec_after ◌*ℤ◌ ◌-ℤ◌ ◌+ℤ◌
wait_of_test = refl

history_of_test :
    dump_history
      (λ w. codes "0.001")
      (record { name = 97 ∷ []; start = pos 1000; end = pos 1000 } ∷ [])
    ≡ codes "[\n\t{\"container\": \"a\", \"start\": 0.001, \"end\" : 0.001}\n]\n"
unfolding dump_history
history_of_test = refl
