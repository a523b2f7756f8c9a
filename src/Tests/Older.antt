-- ===== src/Tests/Older.antt =====
-- The theorems about the older hook library, at the client of the tests.
use fa_st_manager.Timer.{Timespec}
use fa_st_manager.Common.{[], ◌∷◌, Option, none, some, Name, refl, ◌≡◌}
use fa_st_manager.Common.Int.{pos}
use fa_st_manager.Double.{Thousandths, thousandths}
use fa_st_manager.Hook.Rooms.{pod_peer}
use fa_st_manager.Hook.Symbols.{mem_alloc}
use fa_st_manager.Older.Agreement.{Apart, view, viewed}
use fa_st_manager.Hook.Functions
use fa_st_manager.Hook.Functions.{DriverFunction}
use fa_st_manager.Older.Functions.{exported_function, functions_agree}
use fa_st_manager.Older.Launches.{launches, Quiet, launches_ask_once}
use fa_st_manager.Older.State.{Older, us_since}
use fa_st_manager.Older.Tokens.{Guard, launch_kernel_prehook, check_token}
use fa_st_manager.PodManager.State.{Pod}
use fa_st_manager.Predictor.Period.{record_start, record_stop, predict_unmerged}
use fa_st_manager.Tests.Hook.{hook_of_test, readings_of_test, driver_of_test}

abbrev time_of_test : Timespec
time_of_test = record { tv_sec = pos 0; tv_nsec = pos 0 }

-- CU_HOOK_DEBUG is not set.
abbrev apart_of_test : Apart
apart_of_test = record { request_start = time_of_test; env_hook_debug = none; call_count = [] }

abbrev guard_of_test : Guard
guard_of_test = record {
  at_debug = pos 1000;
  at_elapsed = record { tv_sec = pos 0; tv_nsec = pos 1_000_000 };
  at_unmerged = pos 2000;
  at_request = record { tv_sec = pos 0; tv_nsec = pos 7_000_000 };
}

-- The driver that the lookups find.
abbrev next_of_test : Name → Option DriverFunction
next_of_test name = some (λ call. driver_of_test)

functions_agree_example :
    exported_function
      (pod_peer 3)
      (λ n. n)
      next_of_test
      none
      (mem_alloc 200)
      readings_of_test
      guard_of_test
      (view apart_of_test hook_of_test)
    ≡ viewed apart_of_test (
        Functions.exported_function
          (pod_peer 3)
          (λ n. n)
          next_of_test
          none
          (mem_alloc 200)
          readings_of_test
          hook_of_test)
functions_agree_example =
    functions_agree (pod_peer 3) (λ n. n) next_of_test none none apart_of_test (mem_alloc 200)
      readings_of_test guard_of_test hook_of_test (λ call. driver_of_test) (λ call. driver_of_test)
      tt refl refl refl

abbrev older_of_test : Older Thousandths (Pod Thousandths)
older_of_test = view apart_of_test hook_of_test

-- A millisecond of the quota of two has passed.
abbrev launched_older : Older Thousandths (Pod Thousandths)
launched_older = record older_of_test {
  window_predictor = record_stop (pos 1000) older_of_test.window_predictor;
  burst_predictor = record_start (pos 8000) older_of_test.burst_predictor;
}

launches_ask_once_example :
    (k' : Older Thousandths (Pod Thousandths)) × (launches
        (pod_peer 3)
        ((readings_of_test, guard_of_test) ∷ (readings_of_test, guard_of_test) ∷ [])
        older_of_test
      ≡ some k')
    × Quiet (pod_peer 3) launched_older k'
unfolding launch_kernel_prehook check_token us_since predict_unmerged record_stop
    fa_st_manager.Predictor.Period.predictor fa_st_manager.Predictor.Keeper.get_max
    fa_st_manager.Predictor.Keeper.drop_outdated
launches_ask_once_example =
    launches_ask_once (pod_peer 3) readings_of_test guard_of_test
      ((readings_of_test, guard_of_test) ∷ []) older_of_test {k1 = launched_older} refl refl
