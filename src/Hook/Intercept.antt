-- ===== src/Hook/Intercept.antt =====
-- The macros CU_HOOK_GENERATE_INTERCEPT of src/hook.cpp, and the hook tables that `initialize` fills: a
-- pre-hook, then the function of the driver, then a post-hook.
use fa_st_manager.Hook.State.{
  cuda_success, cuda_error_out_of_memory, cuda_error, Peer, Hook, CuResult, get_gpu_memory_info,
}
use fa_st_manager.Hook.Symbols.{
  HookSymbol, DriverCall, hook_mem_alloc, hook_mem_alloc_managed, hook_mem_alloc_pitch,
  hook_array_create, hook_array3d_create, hook_mem_free, hook_array_destroy,
  hook_mipmapped_array_destroy, hook_launch_kernel, hook_launch_cooperative_kernel, hook_ctx_sync,
  hook_memcpy_atoh, hook_memcpy_dtoh, hook_memcpy_htoa, hook_memcpy_htod, hook_device_total_mem,
  hook_mem_info, mem_alloc, mem_alloc_managed, mem_alloc_pitch, mem_free, array_create,
  array3d_create, array_destroy, mipmapped_array_destroy, symbol_index,
}
use fa_st_manager.Common.{
  true, false, Bool, ℕ, Option, some, insert, ◌>>=◌, value_or, if◌then◌else◌, lookup, ◌+◌, nat_eq,
}
use fa_st_manager.Hook.Tokens.{Readings, host_sync_call, launch_kernel_prehook}
use fa_st_manager.Hook.Memory.{
  array_size, pitch_size, array3d_size, mem_alloc_prehook, mem_alloc_posthook,
  mem_alloc_managed_prehook, mem_alloc_managed_posthook, mem_free_prehook,
}
use fa_st_manager.Double.{Double}

-- What the driver does with a call: its result, the pointer or handle that it writes, and the device.
pub record Driver : Type 0 where
  pub result : CuResult
  pub pointer : ℕ
  pub current : Option (CuResult × ℕ)

abbrev pub is_success : CuResult → Bool
is_success cuda_success = true
is_success cuda_error_out_of_memory = false
is_success (cuda_error n) = false

-- The size that the pre-hook and the post-hook of an allocation compute.
unfoldable pub size_before : DriverCall → ℕ
unfolding array_size array3d_size pitch_size
size_before (mem_alloc bytes) = bytes
size_before (mem_alloc_managed bytes) = bytes
size_before (mem_alloc_pitch before after height) = pitch_size before height
size_before (array_create width height channels format) = array_size width height channels format
size_before (array3d_create width height depth channels format) =
    array3d_size width height depth channels format
size_before _ = 0

unfoldable pub size_after : DriverCall → ℕ
unfolding size_before pitch_size
size_after (mem_alloc_pitch before after height) = pitch_size after height
size_after call = size_before call

unfoldable pub freed_pointer : DriverCall → ℕ
freed_pointer (mem_free ptr) = ptr
freed_pointer (array_destroy handle) = handle
freed_pointer (mipmapped_array_destroy handle) = handle
freed_pointer _ = 0

module _ {ℓ κ} {W : Type ℓ} {S : Type κ} ⦃d : Double W⦄ (peer : Peer S) where
  -- `hook_inf.preHooks`
  unfoldable pub pre_hook :
      HookSymbol → DriverCall → Readings W → Hook W S → Option (CuResult × Hook W S)
  unfolding mem_alloc_prehook mem_alloc_managed_prehook mem_free_prehook launch_kernel_prehook
      size_before freed_pointer
  pre_hook hook_mem_alloc call t k = mem_alloc_prehook peer (size_before call) k
  pre_hook hook_mem_alloc_managed call t k = mem_alloc_managed_prehook peer (size_before call) k
  pre_hook hook_mem_alloc_pitch call t k = mem_alloc_prehook peer (size_before call) k
  pre_hook hook_array_create call t k = mem_alloc_prehook peer (size_before call) k
  pre_hook hook_array3d_create call t k = mem_alloc_prehook peer (size_before call) k
  pre_hook hook_mem_free call t k = mem_free_prehook peer (freed_pointer call) k
  pre_hook hook_array_destroy call t k = mem_free_prehook peer (freed_pointer call) k
  pre_hook hook_mipmapped_array_destroy call t k = mem_free_prehook peer (freed_pointer call) k
  pre_hook hook_launch_kernel call t k =
      launch_kernel_prehook peer t k >>= λ k'. some (cuda_success, k')
  pre_hook hook_launch_cooperative_kernel call t k =
      launch_kernel_prehook peer t k >>= λ k'. some (cuda_success, k')
  pre_hook _ call t k = some (cuda_success, k)

  -- `hook_inf.postHooks`, which the table calls only for a success.
  unfoldable pub post_hook :
      HookSymbol → DriverCall → Driver → Readings W → Hook W S → Option (CuResult × Hook W S)
  unfolding mem_alloc_posthook mem_alloc_managed_posthook host_sync_call size_after
  post_hook hook_mem_alloc call v t k = mem_alloc_posthook peer v.pointer (size_after call) k
  post_hook hook_mem_alloc_managed call v t k =
      mem_alloc_managed_posthook peer v.current v.pointer (size_after call) k
  post_hook hook_mem_alloc_pitch call v t k = mem_alloc_posthook peer v.pointer (size_after call) k
  post_hook hook_array_create call v t k = mem_alloc_posthook peer v.pointer (size_after call) k
  post_hook hook_array3d_create call v t k = mem_alloc_posthook peer v.pointer (size_after call) k
  post_hook hook_ctx_sync call v t k = some (cuda_success, host_sync_call t.at_sync t.at_resync k)
  post_hook hook_memcpy_atoh call v t k =
      some (cuda_success, host_sync_call t.at_sync t.at_resync k)
  post_hook hook_memcpy_dtoh call v t k =
      some (cuda_success, host_sync_call t.at_sync t.at_resync k)
  post_hook hook_memcpy_htoa call v t k =
      some (cuda_success, host_sync_call t.at_sync t.at_resync k)
  post_hook hook_memcpy_htod call v t k =
      some (cuda_success, host_sync_call t.at_sync t.at_resync k)
  post_hook _ call v t k = some (cuda_success, k)

  -- `hook_inf.call_count[hooksymbol]++`; the debug mode is always on.
  abbrev pub counted : HookSymbol → Hook W S → Hook W S
  counted symbol k =
      let i = symbol_index symbol in
      record k { call_count = insert i (value_or 0 (lookup i k.call_count) + 1) k.call_count }

  unfoldable pub intercept :
      HookSymbol → DriverCall → Driver → Readings W → Hook W S → Option (CuResult × Hook W S)
  unfolding pre_hook post_hook symbol_index
  intercept symbol call v t k = pre_hook symbol call t (counted symbol k) >>= λ before.
      (if is_success before.0
        then (if is_success v.result
            then post_hook symbol call v t before.1
            else some (v.result, before.1))
        else some before)

  -- `cuDeviceTotalMem` and `cuMemGetInfo`: what they write.
  unfoldable pub device_total_mem : Hook W S → Option (ℕ × Hook W S)
  unfolding get_gpu_memory_info symbol_index
  device_total_mem k =
      get_gpu_memory_info peer k >>= λ info. some (info.1, counted hook_device_total_mem info.2)

  unfoldable pub mem_get_info : Hook W S → Option (ℕ × ℕ × Hook W S)
  unfolding get_gpu_memory_info symbol_index
  mem_get_info k =
      get_gpu_memory_info peer k >>= λ info. some (info.0, info.1, counted hook_mem_info info.2)
