-- ===== src/Hook/Memory.antt =====
-- The pre-hooks and post-hooks of the allocation functions of src/hook.cpp. A `size_t` keeps its
-- wrap-around; a device pointer and an array handle are numbers.
use fa_st_manager.PodManager.State.{max_size, minus_size, plus_size}
use fa_st_manager.Hook.State.{
  Peer, Hook, update_memory_usage, get_gpu_memory_info, CuResult, cuda_success,
  cuda_error_out_of_memory, cuda_error,
}
use fa_st_manager.Double.{Double}
use fa_st_manager.Common.{
  ℕ, List, [], ◌∷◌, Option, none, some, ◌*◌, filter, ◌%◌, not, ◌==◌, if◌then◌else◌, lookup, ◌>>=◌,
  ◌++◌, length, erase, ltb, drop, insert, nat_eq, ◌+◌,
}

-- `CUarray_format`, the values that `CUarray_format_to_size_t` names.
pub data ArrayFormat : Type 0 where
  unsigned_int8 signed_int8 unsigned_int16 signed_int16 half_float unsigned_int32 signed_int32
        float_format :
      ArrayFormat

unfoldable pub format_size : ArrayFormat → ℕ
format_size unsigned_int8 = 1
format_size signed_int8 = 1
format_size unsigned_int16 = 2
format_size signed_int16 = 2
format_size half_float = 2
format_size unsigned_int32 = 4
format_size signed_int32 = 4
format_size float_format = 4

unfoldable pub array_size : ℕ → ℕ → ℕ → ArrayFormat → ℕ
unfolding format_size
array_size width height channels format =
    (width * height * channels) % max_size * format_size format % max_size

unfoldable pub array3d_size : ℕ → ℕ → ℕ → ℕ → ArrayFormat → ℕ
unfolding format_size
array3d_size width height depth channels format =
    (width * height * depth * channels) % max_size * format_size format % max_size

unfoldable pub pitch_size : ℕ → ℕ → ℕ
pitch_size pitch height = (pitch * height) % max_size

-- `devptrs_mngr.erase(std::remove_if(...))`: `remove_if` moves the others to the front, and one element
-- is erased after them. With none to erase the iterator is `end()`, and the call is undefined.
unfoldable pub erase_device_pointer : ℕ → List (ℕ × ℕ × ℕ) → Option (List (ℕ × ℕ × ℕ))
erase_device_pointer ptr xs =
    let kept = filter (λ x. not (x.0 == ptr)) xs in
    if length kept == length xs then none else some (kept ++ drop (length kept + 1) xs)

module _ {ℓ κ} {W : Type ℓ} {S : Type κ} ⦃d : Double W⦄ (peer : Peer S) where
  -- The branch of `cuMemFree_prehook` for a known pointer.
  abbrev pub forget : ℕ → ℕ → Hook W S → Option (Hook W S)
  forget ptr bytes k =
      update_memory_usage peer bytes 0 (record k { gpu_mem_used = minus_size k.gpu_mem_used bytes })
      >>= λ out. erase_device_pointer ptr out.1.devptrs_mngr >>= λ rest.
          some
            (record out.1 { allocation_map = erase ptr out.1.allocation_map; devptrs_mngr = rest })

  abbrev pub forget_known : ℕ → Option ℕ → Hook W S → Option (Hook W S)
  forget_known ptr none k = some k
  forget_known ptr (some bytes) k = forget ptr bytes k

  unfoldable pub mem_free_prehook : ℕ → Hook W S → Option (CuResult × Hook W S)
  unfolding update_memory_usage erase_device_pointer
  mem_free_prehook ptr k =
      forget_known ptr (lookup ptr k.allocation_map) k >>= λ k'. some (cuda_success, k')

  unfoldable pub mem_alloc_prehook : ℕ → Hook W S → Option (CuResult × Hook W S)
  unfolding get_gpu_memory_info
  mem_alloc_prehook bytes k = get_gpu_memory_info peer k >>= λ info.
      some (if ltb info.0 bytes then cuda_error_out_of_memory else cuda_success, info.2)

  unfoldable pub mem_alloc_posthook : ℕ → ℕ → Hook W S → Option (CuResult × Hook W S)
  unfolding update_memory_usage
  mem_alloc_posthook ptr bytes k = update_memory_usage peer bytes 1 k >>= λ out. some (
      if out.0 == 0 then (cuda_error_out_of_memory, out.1) else (
        cuda_success,
        record out.1 {
          allocation_map = insert ptr bytes out.1.allocation_map;
          gpu_mem_used = plus_size out.1.gpu_mem_used bytes;
        },
      ))

  -- The verdict of `cuMemAlloc_prehook` is not used.
  unfoldable pub mem_alloc_managed_prehook : ℕ → Hook W S → Option (CuResult × Hook W S)
  unfolding mem_alloc_prehook
  mem_alloc_managed_prehook bytes k =
      mem_alloc_prehook bytes k >>= λ out. some (cuda_success, out.1)

  abbrev pub with_device : ℕ → ℕ → CuResult → ℕ → Hook W S → Hook W S
  with_device ptr bytes cuda_success device k = record k {
    devptrs_mngr = k.devptrs_mngr ++ ((ptr, bytes, device) ∷ []);
  }
  with_device ptr bytes cuda_error_out_of_memory device k = k
  with_device ptr bytes (cuda_error n) device k = k

  -- The verdict of `cuMemAlloc_posthook` is not used. `current` is what `cudaGetDevice` and then
  -- `cuDeviceGet` say, `none` where the first fails.
  unfoldable pub mem_alloc_managed_posthook :
      Option (CuResult × ℕ) → ℕ → ℕ → Hook W S → Option (CuResult × Hook W S)
  unfolding mem_alloc_posthook
  mem_alloc_managed_posthook current ptr bytes k = mem_alloc_posthook ptr bytes k >>= λ out.
      current >>= λ device. some (device.0, with_device ptr bytes device.0 device.1 out.1)
