-- ===== src/Older/Intercept.antt =====
-- The macro CU_HOOK_GENERATE_INTERCEPT of docker/kubeshare-gemini-scheduler/hook.cpp, and the hook
-- tables that its `initialize` fills. Calls are counted in the debug mode only.
use fa_st_manager.Common.{
  lookup, insert, value_or, nat_eq, ◌+◌, ℕ, Option, some, if◌then◌else◌, ◌>>=◌,
}
use fa_st_manager.Double.{Double}
use fa_st_manager.Hook.Intercept.{Driver, is_success, freed_pointer}
use fa_st_manager.Hook.State.{CuResult, Peer, cuda_success}
use fa_st_manager.Hook.Symbols.{
  hook_device_total_mem, hook_mem_info, symbol_index, HookSymbol, DriverCall, hook_mem_alloc,
  hook_mem_alloc_pitch, hook_array_create, hook_array3d_create, hook_mem_free, hook_array_destroy,
  hook_mipmapped_array_destroy, hook_launch_kernel, hook_launch_cooperative_kernel, hook_ctx_sync,
  hook_memcpy_atoh, hook_memcpy_dtoh, hook_memcpy_htoa, hook_memcpy_htod,
}
use fa_st_manager.Hook.Tokens.{Readings}
use fa_st_manager.Older.Memory.{
  bytes_before, bytes_after, mem_free_prehook, mem_alloc_prehook, mem_alloc_posthook,
}
use fa_st_manager.Older.State.{Older, get_gpu_memory_info}
use fa_st_manager.Older.Tokens.{Guard, host_sync_call, launch_kernel_prehook}

module _ {ℓ κ} {W : Type ℓ} {S : Type κ} ⦃d : Double W⦄ (peer : Peer S) where
  -- `hook_inf.preHooks`; those of managed memory and of mipmapped arrays do nothing.
  unfoldable pub pre_hook :
      HookSymbol → DriverCall → Readings W → Guard → Older W S → Option (CuResult × Older W S)
  unfolding mem_alloc_prehook mem_free_prehook launch_kernel_prehook bytes_before freed_pointer
  pre_hook hook_mem_alloc call t u k = mem_alloc_prehook peer (bytes_before call) k
  pre_hook hook_mem_alloc_pitch call t u k = mem_alloc_prehook peer (bytes_before call) k
  pre_hook hook_array_create call t u k = mem_alloc_prehook peer (bytes_before call) k
  pre_hook hook_array3d_create call t u k = mem_alloc_prehook peer (bytes_before call) k
  pre_hook hook_mem_free call t u k = mem_free_prehook peer (freed_pointer call) k
  pre_hook hook_array_destroy call t u k = mem_free_prehook peer (freed_pointer call) k
  pre_hook hook_mipmapped_array_destroy call t u k = mem_free_prehook peer (freed_pointer call) k
  pre_hook hook_launch_kernel call t u k =
      launch_kernel_prehook peer t u k >>= λ k'. some (cuda_success, k')
  pre_hook hook_launch_cooperative_kernel call t u k =
      launch_kernel_prehook peer t u k >>= λ k'. some (cuda_success, k')
  pre_hook _ call t u k = some (cuda_success, k)

  -- `hook_inf.postHooks`, which the table calls only for a success.
  unfoldable pub post_hook :
      HookSymbol → DriverCall → Driver → Readings W → Older W S → Option (CuResult × Older W S)
  unfolding mem_alloc_posthook host_sync_call bytes_after
  post_hook hook_mem_alloc call v t k = mem_alloc_posthook peer v.pointer (bytes_after call) k
  post_hook hook_mem_alloc_pitch call v t k = mem_alloc_posthook peer v.pointer (bytes_after call) k
  post_hook hook_array_create call v t k = mem_alloc_posthook peer v.pointer (bytes_after call) k
  post_hook hook_array3d_create call v t k = mem_alloc_posthook peer v.pointer (bytes_after call) k
  post_hook hook_ctx_sync call v t k = some (cuda_success, host_sync_call t.at_sync t.at_resync k)
  post_hook hook_memcpy_atoh call v t k =
      some (cuda_success, host_sync_call t.at_sync t.at_resync k)
  post_hook hook_memcpy_dtoh call v t k =
      some (cuda_success, host_sync_call t.at_sync t.at_resync k)
  post_hook hook_memcpy_htoa call v t k =
      some (cuda_success, host_sync_call t.at_sync t.at_resync k)
  post_hook hook_memcpy_htod call v t k =
      some (cuda_success, host_sync_call t.at_sync t.at_resync k)
  post_hook _ call v t k = some (cuda_success, k)

  -- `if (hook_inf.debug_mode) hook_inf.call_count[hooksymbol]++`
  abbrev pub counted : HookSymbol → Older W S → Older W S
  counted symbol k =
      let i = symbol_index symbol in
      if k.debug_mode
      then record k { call_count = insert i (value_or 0 (lookup i k.call_count) + 1) k.call_count }
      else k

  unfoldable pub intercept :
      HookSymbol
      → DriverCall
      → Driver
      → Readings W
      → Guard
      → Older W S
      → Option (CuResult × Older W S)
  unfolding pre_hook post_hook symbol_index
  intercept symbol call v t u k = pre_hook symbol call t u (counted symbol k) >>= λ before.
      (if is_success before.0
        then (if is_success v.result
            then post_hook symbol call v t before.1
            else some (v.result, before.1))
        else some before)

  -- `cuDeviceTotalMem` and `cuMemGetInfo`: what they write.
  unfoldable pub device_total_mem : Older W S → Option (ℕ × Older W S)
  unfolding get_gpu_memory_info symbol_index
  device_total_mem k =
      get_gpu_memory_info peer k >>= λ info. some (info.1, counted hook_device_total_mem info.2)

  unfoldable pub mem_get_info : Older W S → Option (ℕ × ℕ × Older W S)
  unfolding get_gpu_memory_info symbol_index
  mem_get_info k =
      get_gpu_memory_info peer k >>= λ info. some (info.0, info.1, counted hook_mem_info info.2)
