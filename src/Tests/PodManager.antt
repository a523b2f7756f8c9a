-- ===== src/Tests/PodManager.antt =====
-- The theorems about the daemon of a Pod, at a daemon with two connections.
use fa_st_manager.PodManager.Bursts.{quota_request, AtLeast, longest, check_quota_request}
use fa_st_manager.Comm.RoundTrip.{Carries}
use fa_st_manager.Tests.Comm.{statics_of_test, host_of_test}
use fa_st_manager.Common.Int.{pos, ◌+ℤ◌}
use fa_st_manager.Comm.Message.{Parsed, parse_request, c_string}
use fa_st_manager.Double.{Thousandths, thousandths, Thousandths-IsOrdered}
use fa_st_manager.Predictor.Period.{ms_between}
use fa_st_manager.PodManager.State.{Pod, accept_client, close_client, hook_update_memory_usage}
use fa_st_manager.PodManager.Recovery.{
  Balanced, Moves-Balanced, after, stay, accepts, allocates, closes,
}
use fa_st_manager.PodManager.Launch.{max_burst, check_quota, asked}
use fa_st_manager.Common.{ℕ, List, [], ◌∷◌, some, refl, arith, ◌≡◌, All}

abbrev pub pod_of_test : Pod Thousandths
pod_of_test = record {
  gpu_mem_limit = 1000;
  gpu_mem_used = 0;
  allocation_map = [];
  client_burst_map = (4, pos 9000) ∷ [];
  pod_overuse_ms = pos 100;
  pod_quota = pos 2000;
  quota_updated_tp = pos 0;
  quota_state = 0;
  kernel_launch_count = 1;
  sleeping_count = 0;
  scheduler_recv_sync = 1;
  request_queue = [];
  response_map = [];
  statics = statics_of_test;
}

-- Connection 3 holds 100 bytes.
abbrev pub pod_in_use : Pod Thousandths
pod_in_use = record pod_of_test { gpu_mem_used = 100; allocation_map = (3, 100) ∷ [] }

Moves-Balanced_example :
    Balanced (close_client 3 (hook_update_memory_usage 500 1 3 (accept_client 3 pod_of_test)).1)
unfolding accept_client hook_update_memory_usage
Moves-Balanced_example =
    Moves-Balanced
      (after
        (after (after stay (accepts {p = pod_of_test} 3))
          (allocates {p = accept_client 3 pod_of_test} 500 1 3 (omega arith) (omega arith)))
        (closes {p = (hook_update_memory_usage 500 1 3 (accept_client 3 pod_of_test)).1} 3))
      (refl, refl, omega arith)

pub pod_in_use-Balanced : Balanced pod_in_use
pod_in_use-Balanced = (refl, omega arith, (refl, tt), omega arith)

check_quota_request_example :
    (out : List ℕ) × (q : Pod Thousandths) × (r : Parsed) × (check_quota host_of_test 3
        (pos 1_000_000)
        (pos 50)
        (pos 5000)
        pod_of_test
      ≡ some (asked 300, q))
    × (q.request_queue ≡ (300, out) ∷ [])
    × (q.quota_state ≡ 1)
    × (parse_request out ≡ some r)
    × (c_string r.name ≡ some (97 ∷ []))
    × Carries (quota_request Thousandths-IsOrdered 3 (pos 50) (pos 5000) pod_of_test) out r.attached
    × All
        (λ x.
          AtLeast Thousandths-IsOrdered x.1
            (longest Thousandths-IsOrdered 3 (pos 5000) pod_of_test))
        q.client_burst_map
unfolding max_burst ms_between ◌+ℤ◌
check_quota_request_example =
    check_quota_request Thousandths-IsOrdered host_of_test 3 (pos 1_000_000) (pos 50) (pos 5000)
      pod_of_test (omega arith, tt) (omega arith) (omega arith) (omega arith, omega arith) refl
