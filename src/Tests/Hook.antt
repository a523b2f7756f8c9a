-- ===== src/Tests/Hook.antt =====
-- The theorems about the hook library, at a client of the daemon of the tests.
use fa_st_manager.Hook.Symbols.{exported_symbol, mem_alloc}
use fa_st_manager.Hook.Tokens.{Readings}
use fa_st_manager.Hook.Intercept.{Driver, intercept}
use fa_st_manager.Tests.Comm.{host_of_test, statics_of_test}
use fa_st_manager.Tests.PodManager.{pod_in_use, pod_in_use-Balanced}
use fa_st_manager.Predictor.Period.{predictor}
use fa_st_manager.Common.Int.{pos}
use fa_st_manager.PodManager.State.{Pod, hook_update_memory_usage}
use fa_st_manager.Double.{Thousandths, thousandths}
use fa_st_manager.Hook.Rooms.{pod_peer, update_memory_usage_lem, mem_alloc_refused}
use fa_st_manager.Hook.State.{Hook, update_memory_usage, cuda_success, cuda_error_out_of_memory}
use fa_st_manager.Common.{[], ◌∷◌, none, some, true, ◌≡◌, arith}

abbrev pub hook_of_test : Hook Thousandths (Pod Thousandths)
hook_of_test = record {
  allocation_map = (4096, 100) ∷ [];
  devptrs_mngr = [];
  gpu_mem_used = 100;
  quota_time = pos 2000;
  overuse = pos 0;
  overuse_trk_cmpl = true;
  progress_start = pos 0;
  burst_predictor = predictor (pos 2000);
  window_predictor = predictor (pos 0);
  call_count = [];
  host = host_of_test;
  statics = statics_of_test;
  peer_state = pod_in_use;
}

update_memory_usage_lem_example :
    (k' : Hook Thousandths (Pod Thousandths)) × (update_memory_usage (pod_peer 3) 200 1 hook_of_test
      ≡ some ((hook_update_memory_usage 200 1 3 pod_in_use).0, k'))
    × (k'.peer_state ≡ (hook_update_memory_usage 200 1 3 pod_in_use).1)
update_memory_usage_lem_example =
    update_memory_usage_lem 3 200 1 hook_of_test ((omega arith, tt), omega arith, omega arith)
      (omega arith) (omega arith)

abbrev pub readings_of_test : Readings Thousandths
readings_of_test = record {
  at_stop = pos 1000;
  at_check = pos 2000;
  at_burst = pos 3000;
  at_window = pos 4000;
  at_sync = pos 5000;
  at_resync = pos 6000;
  elapsed = pos 0;
  at_renewal = pos 7000;
  at_start = pos 8000;
}

abbrev pub driver_of_test : Driver
driver_of_test = record { result = cuda_success; pointer = 8192; current = none }

mem_alloc_refused_example :
    (k' : Hook Thousandths (Pod Thousandths)) × (intercept
        (pod_peer 3)
        (exported_symbol (mem_alloc 950))
        (mem_alloc 950)
        driver_of_test
        readings_of_test
        hook_of_test
      ≡ some (cuda_error_out_of_memory, k'))
    × (k'.peer_state ≡ pod_in_use)
    × (k'.allocation_map ≡ hook_of_test.allocation_map)
    × (k'.gpu_mem_used ≡ 100)
mem_alloc_refused_example =
    mem_alloc_refused 3 950 driver_of_test readings_of_test hook_of_test
      ((omega arith, tt), omega arith, omega arith) pod_in_use-Balanced (omega arith)
