-- ===== src/Hook/Managed.antt =====
-- Allocations of src/hook.cpp that go through the hooks of managed memory: those of `cuMemAllocManaged`,
-- and those of a `cuMemAlloc` that was found by `cuGetProcAddress`.
use fa_st_manager.Common.{ℕ, ◌+◌, ◌^◌, ◌<◌, ◌≡◌, refl, [], ◌∷◌, ◌++◌, some, arith}
use fa_st_manager.Double.{Double}
use fa_st_manager.Hook.Intercept.{
  Driver, intercept, pre_hook, post_hook, size_before, size_after, counted,
}
use fa_st_manager.Hook.Memory.{
  mem_alloc_managed_posthook, mem_alloc_managed_prehook, mem_alloc_posthook, mem_alloc_prehook,
}
use fa_st_manager.Hook.Rooms.{
  Speaks, advanced, get_gpu_memory_info_exact, pod_peer, update_memory_usage_exact,
}
use fa_st_manager.Hook.State.{Hook, cuda_success}
use fa_st_manager.Hook.Symbols.{address_symbol, hook_mem_alloc_managed, mem_alloc}
use fa_st_manager.Hook.Tokens.{Readings}
use fa_st_manager.PodManager.Recovery.{Balanced}
use fa_st_manager.PodManager.State.{Pod, hook_update_memory_usage}

module _ {ℓ} {W : Type ℓ} ⦃d : Double W⦄ where
  refused :
      (bytes sockfd : ℕ) (p : Pod W)
      → p.gpu_mem_limit < p.gpu_mem_used + bytes
      → p.gpu_mem_used + bytes < 2 ^ 64
      → hook_update_memory_usage bytes 1 sockfd p ≡ (0, p)
  unfolding hook_update_memory_usage
  refused bytes sockfd p over fits = ground arith

  -- An allocation by a `cuMemAlloc` that was found by `cuGetProcAddress`, for more than what remains of
  -- the limit, succeeds: it is listed among the managed pointers, and neither the daemon's state nor the
  -- accounts of the hook library change. The driver and the look-up of the device succeed, the requests
  -- fit, the accounts of the daemon are balanced, and the sizes do not overflow.
  pub managed_passes_limit :
      (sockfd bytes device : ℕ) (v : Driver) (t : Readings W) (k : Hook W (Pod W))
      → Speaks k
      → Balanced k.peer_state
      → k.peer_state.gpu_mem_limit < k.peer_state.gpu_mem_used + bytes
      → k.peer_state.gpu_mem_used + bytes < 2 ^ 64
      → v.result ≡ cuda_success
      → v.current ≡ some (cuda_success, device)
      → (k' : Hook W (Pod W)) × (intercept
            (pod_peer sockfd)
            (address_symbol (mem_alloc bytes))
            (mem_alloc bytes)
            v
            t
            k
          ≡ some (cuda_success, k'))
        × (k'.peer_state ≡ k.peer_state)
        × (k'.allocation_map ≡ k.allocation_map)
        × (k'.gpu_mem_used ≡ k.gpu_mem_used)
        × (k'.devptrs_mngr ≡ k.devptrs_mngr ++ ((v.pointer, bytes, device) ∷ []))
  unfolding intercept pre_hook post_hook address_symbol size_before size_after
      mem_alloc_managed_prehook mem_alloc_managed_posthook mem_alloc_prehook mem_alloc_posthook
  managed_passes_limit sockfd bytes device v t k (nz, short, small) sound over fits done current =
      let k1 : Hook W (Pod W) = counted (pod_peer sockfd) hook_mem_alloc_managed k in
      let k2 : Hook W (Pod W) = record k1 { statics = advanced k1 } in
      let told = get_gpu_memory_info_exact sockfd k1 (nz, short, small) sound in
      let answered =
        update_memory_usage_exact sockfd bytes 1 k2 (nz, short, omega arith) (omega arith)
          (omega arith) in
      let verdict = refused bytes sockfd k.peer_state over fits in
      (
        record k2 {
          statics = advanced k2;
          devptrs_mngr = k.devptrs_mngr ++ ((v.pointer, bytes, device) ∷ []);
        },
        rw (told, done, answered, verdict, current) refl,
        refl,
        refl,
        refl,
        refl,
      )
