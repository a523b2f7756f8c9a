-- ===== src/Tests/Asked.antt =====
-- The theorem about a quota that runs out, at the daemon of the tests and the scheduler with one client.
use mathlib.Core.List.{Memᴰ}
use fa_st_manager.Common.{Bool, ℕ, List, [], ◌∷◌, some, refl, arith, ◌≡◌}
use fa_st_manager.Common.Int.{pos, div_ℤ, ◌+ℤ◌, ◌-ℤ◌, ◌*ℤ◌}
use fa_st_manager.Double.{Thousandths, thousandths, fmin, fmax}
use fa_st_manager.Hook.Quotas.{Arrives}
use fa_st_manager.PodManager.Requests.{returned}
use fa_st_manager.PodManager.Launch.{asked, await_response, check_quota, max_burst, take_response}
use fa_st_manager.PodManager.Round.{launch_served_by_round}
use fa_st_manager.PodManager.State.{Pod}
use fa_st_manager.PodManager.Threads.{receive_response}
use fa_st_manager.Predictor.Period.{ms_between}
use fa_st_manager.Scheduler.Client.{get_quota, set_burst, update_return_time}
use fa_st_manager.Scheduler.Message.{handle_message, handle_quota}
use fa_st_manager.Scheduler.Rounds.{daemon_round, serve_selects}
use fa_st_manager.Scheduler.State.{Scheduler}
use fa_st_manager.Tests.Comm.{host_of_test}
use fa_st_manager.Tests.PodManager.{pod_of_test}
use fa_st_manager.Tests.Scheduler.{alice, alice_name, same, start, start_Inv}
use fa_st_manager.Tests.Passes.{permutes_same}
use fa_st_manager.Tests.Rounds.{round_of_test}

-- The quota of `alice` for a burst of 9 ms.
abbrev quota_of_test : Thousandths
quota_of_test = (get_quota (returned (pos 2000) (pos 100) (pos 9000) alice start)).0

quota_of_test_lem : quota_of_test ≡ pos 129_500
unfolding get_quota set_burst update_return_time ◌+ℤ◌ ◌-ℤ◌ ◌*ℤ◌
quota_of_test_lem = refl

-- Each quota of `alice` lies from 100 ms to 300 ms.
clamped-Arrives : (x : Thousandths) → Arrives (fmin (fmax x (pos 100_000)) (pos 300_000))
clamped-Arrives x = ground arith

quotas-Arrive :
    (q : Thousandths)
    → Arrives
        (get_quota (record (returned (pos 2000) (pos 100) (pos 9000) alice start) { quota = q })).0
unfolding get_quota set_burst update_return_time ◌+ℤ◌ ◌-ℤ◌ ◌*ℤ◌
quotas-Arrive q = clamped-Arrives (pos 4500 +ℤ div_ℤ (q *ℤ pos 500) 1000)

-- The scheduler once the request of `alice` is handled.
abbrev asked_of_test : Scheduler Thousandths
asked_of_test = handle_quota 5 alice_name 300 (pos 100) (pos 9000) (pos 2000) (pos 3000) alice start

launch_served_by_round_example :
    (buf rsp : List ℕ) × (q q' q'' : Pod Thousandths) × (v : Scheduler Thousandths)
    × (last : Thousandths) × (check_quota host_of_test 3
          (pos 1_000_000)
          (pos 50)
          (pos 5000)
          pod_of_test
        ≡ some (asked 300, q))
    × (q.request_queue ≡ (300, buf) ∷ [])
    × (handle_message 5 buf (pos 2000) (pos 3000) start ≡ some asked_of_test)
    × (daemon_round same round_of_test asked_of_test ≡ serve_selects same round_of_test (some []) v)
    × Memᴰ (5, rsp) v.outbox
    × ((b : Bool) (t : Scheduler Thousandths)
        → daemon_round same round_of_test asked_of_test ≡ some (b, t)
        → Memᴰ (5, rsp) t.outbox)
    × (receive_response rsp (await_response 1 q) ≡ some q')
    × (take_response 300 (pos 7000) q' ≡ some q'')
    × (q''.pod_quota
        ≡ (get_quota
            (record (returned (pos 2000) (pos 100) (pos 9000) alice start) { quota = last })).0)
    × (q''.pod_overuse_ms ≡ pos 0)
unfolding max_burst ms_between handle_quota update_return_time set_burst ◌+ℤ◌ ◌-ℤ◌ ◌*ℤ◌
launch_served_by_round_example =
    launch_served_by_round same permutes_same host_of_test 3 5 (pos 1_000_000) (pos 7000) (pos 2000)
      (pos 3000) (pos 50) (pos 5000) pod_of_test start alice round_of_test (pos 5000, []) []
      (omega arith, tt) (omega arith) (omega arith) (refl, omega arith) (refl, omega arith)
      quotas-Arrive refl refl start_Inv refl refl refl (omega arith)
