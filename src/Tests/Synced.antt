-- ===== src/Tests/Synced.antt =====
-- The theorem about the accounts of both ends, at the hook library and the daemon of the tests.
use fa_st_manager.Common.{[], ◌∷◌, some, refl, arith, ◌≡◌}
use fa_st_manager.Double.{Thousandths, thousandths}
use fa_st_manager.Hook.Accounts.{
  Synced, allocates, begun, gets_managed, gives_back, meanwhile, then_step,
}
use fa_st_manager.Hook.Memory.{
  erase_device_pointer, mem_alloc_managed_posthook, mem_alloc_posthook, mem_free_prehook,
}
use fa_st_manager.Hook.Rooms.{advanced, pod_peer, update_memory_usage_exact}
use fa_st_manager.Hook.State.{Hook, cuda_success}
use fa_st_manager.Hook.Synced.{HookRun-Synced}
use fa_st_manager.PodManager.State.{Pod, allocated, released, hook_update_memory_usage}
use fa_st_manager.Tests.Hook.{hook_of_test}
use fa_st_manager.Tests.PodManager.{pod_in_use, pod_in_use-Balanced}

-- After 200 bytes of managed memory at a new pointer.
abbrev grown : Hook Thousandths (Pod Thousandths)
grown = record hook_of_test {
  statics = advanced hook_of_test;
  peer_state = allocated 200 3 pod_in_use;
  allocation_map = (4096, 100) ∷ (8192, 200) ∷ [];
  devptrs_mngr = (8192, 200, 0) ∷ [];
  gpu_mem_used = 300;
}

-- After they are freed.
abbrev freed : Hook Thousandths (Pod Thousandths)
freed = record hook_of_test {
  statics = advanced grown;
  peer_state = released 200 3 grown.peer_state;
}

allocation_of_test :
    mem_alloc_managed_posthook (pod_peer 3) (some (cuda_success, 0)) 8192 200 hook_of_test
    ≡ some (cuda_success, grown)
unfolding mem_alloc_managed_posthook mem_alloc_posthook hook_update_memory_usage
allocation_of_test =
    rw
      (update_memory_usage_exact 3 200 1 hook_of_test ((omega arith, tt), omega arith, omega arith)
        (omega arith) (omega arith))
      refl

free_of_test : mem_free_prehook (pod_peer 3) 8192 grown ≡ some (cuda_success, freed)
unfolding mem_free_prehook erase_device_pointer hook_update_memory_usage
free_of_test =
    rw
      (update_memory_usage_exact 3 200 0 (record grown { gpu_mem_used = 100 })
        ((omega arith, tt), omega arith, omega arith) (omega arith) (omega arith))
      refl

-- The connection 4 then takes 500 bytes.
HookRun-Synced_example :
    Synced 3 (record freed { peer_state = (hook_update_memory_usage 500 1 4 freed.peer_state).1 })
HookRun-Synced_example =
    HookRun-Synced 3
      (then_step
        (then_step
          (then_step begun (
            gets_managed 8192 200 (some (cuda_success, 0)) cuda_success refl (omega arith)
              allocation_of_test))
          (gives_back 8192 cuda_success free_of_test))
        (meanwhile {k = freed} (allocates 500 1 4 (λ e. omega arith) (omega arith) (omega arith))))
      (record {
        summed = refl;
        once = (refl, tt);
        told = refl;
        sound = pod_in_use-Balanced;
        speaks = ((omega arith, tt), omega arith, omega arith);
      })
