-- ===== src/Older/Memory.antt =====
-- The pre-hooks and post-hooks of the allocation functions of
-- docker/kubeshare-gemini-scheduler/hook.cpp, and the sizes that they compute.
use fa_st_manager.Common.{
  ℕ, Option, none, some, ◌*◌, ◌%◌, ◌==◌, if◌then◌else◌, lookup, ◌>>=◌, erase, ltb, insert, nat_eq,
}
use fa_st_manager.Double.{Double}
use fa_st_manager.Hook.Memory.{
  ArrayFormat, unsigned_int8, signed_int8, unsigned_int16, signed_int16, half_float, unsigned_int32,
  signed_int32, float_format,
}
use fa_st_manager.Hook.State.{Peer, CuResult, cuda_success, cuda_error_out_of_memory}
use fa_st_manager.Hook.Symbols.{
  DriverCall, mem_alloc, mem_alloc_managed, mem_alloc_pitch, array_create, array3d_create,
}
use fa_st_manager.Older.State.{Older, update_memory_usage, get_gpu_memory_info}
use fa_st_manager.PodManager.State.{max_size, minus_size, plus_size}

-- `CUarray_format_to_size_t`
unfoldable pub format_bytes : ArrayFormat → ℕ
format_bytes unsigned_int8 = 1
format_bytes signed_int8 = 1
format_bytes unsigned_int16 = 2
format_bytes signed_int16 = 2
format_bytes half_float = 2
format_bytes unsigned_int32 = 4
format_bytes signed_int32 = 4
format_bytes float_format = 4

-- The size that the pre-hook of an allocation passes on, and the one that its post-hook passes on.
unfoldable pub bytes_before : DriverCall → ℕ
unfolding format_bytes
bytes_before (mem_alloc bytes) = bytes
bytes_before (mem_alloc_managed bytes) = bytes
bytes_before (mem_alloc_pitch before after height) = (before * height) % max_size
bytes_before (array_create width height channels format) =
    (width * height * channels) % max_size * format_bytes format % max_size
bytes_before (array3d_create width height depth channels format) =
    (width * height * depth * channels) % max_size * format_bytes format % max_size
bytes_before _ = 0

unfoldable pub bytes_after : DriverCall → ℕ
unfolding bytes_before
bytes_after (mem_alloc_pitch before after height) = (after * height) % max_size
bytes_after call = bytes_before call

module _ {ℓ κ} {W : Type ℓ} {S : Type κ} ⦃d : Double W⦄ (peer : Peer S) where
  -- The two branches of `cuMemFree_prehook`.
  abbrev pub released : ℕ → Option ℕ → Older W S → Option (Older W S)
  released ptr none k = some k
  released ptr (some bytes) k =
      update_memory_usage peer bytes 0 (record k { gpu_mem_used = minus_size k.gpu_mem_used bytes })
      >>= λ out. some (record out.1 { allocation_map = erase ptr out.1.allocation_map })

  unfoldable pub mem_free_prehook : ℕ → Older W S → Option (CuResult × Older W S)
  unfolding update_memory_usage
  mem_free_prehook ptr k =
      released ptr (lookup ptr k.allocation_map) k >>= λ k'. some (cuda_success, k')

  unfoldable pub mem_alloc_prehook : ℕ → Older W S → Option (CuResult × Older W S)
  unfolding get_gpu_memory_info
  mem_alloc_prehook bytes k = get_gpu_memory_info peer k >>= λ info.
      some (if ltb info.0 bytes then cuda_error_out_of_memory else cuda_success, info.2)

  unfoldable pub mem_alloc_posthook : ℕ → ℕ → Older W S → Option (CuResult × Older W S)
  unfolding update_memory_usage
  mem_alloc_posthook ptr bytes k = update_memory_usage peer bytes 1 k >>= λ out. some (
      if out.0 == 0 then (cuda_error_out_of_memory, out.1) else (
        cuda_success,
        record out.1 {
          allocation_map = insert ptr bytes out.1.allocation_map;
          gpu_mem_used = plus_size out.1.gpu_mem_used bytes;
        },
      ))
