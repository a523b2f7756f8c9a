-- ===== src/Tests/Tokens.antt =====
-- The theorems about programs that talk to each other, at the clients of the tests.
use fa_st_manager.Common.{ℕ, List, [], ◌∷◌, none, some, refl, arith, ◌≡◌, false}
use fa_st_manager.Common.Int.{pos, ◌+ℤ◌, ◌-ℤ◌}
use fa_st_manager.Double.{Thousandths, thousandths}
use fa_st_manager.Hook.Intercept.{intercept}
use fa_st_manager.Hook.Managed.{managed_passes_limit}
use fa_st_manager.Hook.Quotas.{launch_peer, renew_token_lem}
use fa_st_manager.Hook.Rooms.{pod_peer}
use fa_st_manager.Hook.State.{Hook, cuda_success}
use fa_st_manager.Hook.Symbols.{address_symbol, mem_alloc}
use fa_st_manager.Hook.Tokens.{next_burst, renew_token, estimate_full_burst}
use fa_st_manager.PodManager.Launch.{noted}
use fa_st_manager.PodManager.Recovery.{Balanced, Idle}
use fa_st_manager.PodManager.Started.{accept_clients, ask_limit, fresh_pod, limit_from_scheduler}
use fa_st_manager.PodManager.Startup.{connect_and_bind}
use fa_st_manager.PodManager.State.{Pod}
use fa_st_manager.Comm.Attempt.{Outcome, multiple_attempt}
use fa_st_manager.Predictor.Period.{ms_between, predict_merged, predictor}
use fa_st_manager.Predictor.Keeper.{get_max, drop_outdated}
use fa_st_manager.Scheduler.Message.{handle_message}
use fa_st_manager.Scheduler.Config.{client_of, read_resource_config}
use fa_st_manager.Scheduler.Settings.{default_settings, empty_scheduler, started}
use fa_st_manager.Scheduler.State.{Scheduler}
use fa_st_manager.Tests.Comm.{host_of_test}
use fa_st_manager.Tests.Hook.{hook_of_test, readings_of_test}
use fa_st_manager.Tests.PodManager.{pod_in_use, pod_in_use-Balanced}
use fa_st_manager.Tests.Starts.{row_of_test, started_of_test}

managed_passes_limit_example :
    (k' : Hook Thousandths (Pod Thousandths)) × (intercept
        (pod_peer 3)
        (address_symbol (mem_alloc 950))
        (mem_alloc 950)
        (record { result = cuda_success; pointer = 8192; current = some (cuda_success, 0) })
        readings_of_test
        hook_of_test
      ≡ some (cuda_success, k'))
    × (k'.peer_state ≡ pod_in_use)
    × (k'.allocation_map ≡ hook_of_test.allocation_map)
    × (k'.gpu_mem_used ≡ 100)
    × (k'.devptrs_mngr ≡ (8192, 950, 0) ∷ [])
managed_passes_limit_example =
    managed_passes_limit 3 950 0
      (record { result = cuda_success; pointer = 8192; current = some (cuda_success, 0) })
      readings_of_test hook_of_test ((omega arith, tt), omega arith, omega arith)
      pod_in_use-Balanced (omega arith) (omega arith) refl refl

-- Nothing was measured yet.
burst_of_test : (next_burst readings_of_test hook_of_test).0 ≡ pos 0
unfolding next_burst estimate_full_burst predict_merged get_max drop_outdated predictor ◌+ℤ◌ ◌-ℤ◌
burst_of_test = refl

-- Of a quota of 2 ms, 1 ms is left.
renew_token_lem_example :
    (k' : Hook Thousandths (Pod Thousandths)) × (renew_token
        (launch_peer host_of_test 3 (pos 1_000_000))
        readings_of_test
        hook_of_test
      ≡ some k')
    × (k'.quota_time ≡ pos 1000)
    × (k'.progress_start ≡ pos 7000)
    × (k'.overuse_trk_cmpl ≡ false)
    × (k'.peer_state ≡ noted 3 (pos 0) (next_burst readings_of_test hook_of_test).0 pod_in_use)
unfolding ms_between ◌+ℤ◌ ◌-ℤ◌
renew_token_lem_example =
    renew_token_lem host_of_test 3 (pos 1_000_000) readings_of_test hook_of_test
      ((omega arith, tt), omega arith, omega arith) (refl, omega arith)
      (rw burst_of_test refl, rw burst_of_test (omega arith)) (refl, omega arith) refl
      (rw burst_of_test refl)

-- The three operations succeed at once.
abbrev at_once : ℕ → Outcome
at_once n = record { rc = pos 0; errno = pos 0 }

limit_from_scheduler_example :
    (buf rsp : List ℕ) × (p q : Pod Thousandths) × (t : Scheduler Thousandths) × (ask_limit
        host_of_test fresh_pod
      ≡ some (buf, p))
    × (handle_message 6 buf (pos 1000) (pos 1000) started_of_test ≡ some t)
    × (t ≡ record started_of_test { outbox = (6, rsp) ∷ started_of_test.outbox })
    × (connect_and_bind at_once at_once at_once rsp (pos 2000) p ≡ some q)
    × (q.gpu_mem_limit ≡ 1000)
    × Idle q
    × Balanced (accept_clients (some 3 ∷ some 4 ∷ none ∷ []) q).1
unfolding read_resource_config client_of multiple_attempt started
limit_from_scheduler_example =
    limit_from_scheduler host_of_test at_once at_once at_once (pos 2000) 6
      (some 3 ∷ some 4 ∷ none ∷ []) (pos 1000) (pos 1000) started_of_test
      (client_of (empty_scheduler default_settings) row_of_test) refl refl refl (omega arith, tt)
      (omega arith) refl refl (omega arith)
