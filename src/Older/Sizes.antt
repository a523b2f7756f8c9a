-- ===== src/Older/Sizes.antt =====
-- The sizes that the hooks of src/hook.cpp and docker/kubeshare-gemini-scheduler/hook.cpp compute.
use fa_st_manager.Common.{◌≡◌, refl, nat_eq}
use fa_st_manager.Hook.Intercept.{size_before, size_after}
use fa_st_manager.Hook.Symbols.{
  DriverCall, mem_alloc, mem_alloc_managed, mem_alloc_pitch, array_create, array3d_create, mem_free,
  array_destroy, mipmapped_array_destroy, launch_kernel, launch_cooperative_kernel, memcpy_atoh,
  memcpy_dtoh, memcpy_htoa, memcpy_htod, ctx_synchronize, mipmapped_array_create,
}
use fa_st_manager.Older.Memory.{bytes_before, bytes_after, format_bytes}
use fa_st_manager.Hook.Memory.{
  ArrayFormat, format_size, array_size, array3d_size, pitch_size, unsigned_int8, signed_int8,
  unsigned_int16, signed_int16, half_float, unsigned_int32, signed_int32, float_format,
}

format_bytes-format_size : (f : ArrayFormat) → format_bytes f ≡ format_size f
unfolding format_bytes format_size
format_bytes-format_size unsigned_int8 = refl
format_bytes-format_size signed_int8 = refl
format_bytes-format_size unsigned_int16 = refl
format_bytes-format_size signed_int16 = refl
format_bytes-format_size half_float = refl
format_bytes-format_size unsigned_int32 = refl
format_bytes-format_size signed_int32 = refl
format_bytes-format_size float_format = refl

pub bytes_before-size_before : (call : DriverCall) → bytes_before call ≡ size_before call
unfolding bytes_before size_before array_size array3d_size pitch_size
bytes_before-size_before (mem_alloc b) = refl
bytes_before-size_before (mem_alloc_managed b) = refl
bytes_before-size_before (mem_alloc_pitch a b h) = refl
bytes_before-size_before (mem_free p) = refl
bytes_before-size_before (array_destroy p) = refl
bytes_before-size_before (mipmapped_array_destroy p) = refl
bytes_before-size_before memcpy_atoh = refl
bytes_before-size_before memcpy_dtoh = refl
bytes_before-size_before memcpy_htoa = refl
bytes_before-size_before memcpy_htod = refl
bytes_before-size_before ctx_synchronize = refl
bytes_before-size_before mipmapped_array_create = refl
bytes_before-size_before launch_kernel = refl
bytes_before-size_before launch_cooperative_kernel = refl
bytes_before-size_before (array_create w h c f) = rw (format_bytes-format_size f) refl
bytes_before-size_before (array3d_create w h z c f) = rw (format_bytes-format_size f) refl

pub bytes_after-size_after : (call : DriverCall) → bytes_after call ≡ size_after call
unfolding bytes_after size_after bytes_before size_before array_size array3d_size pitch_size
bytes_after-size_after (mem_alloc b) = refl
bytes_after-size_after (mem_alloc_managed b) = refl
bytes_after-size_after (mem_alloc_pitch a b h) = refl
bytes_after-size_after (mem_free p) = refl
bytes_after-size_after (array_destroy p) = refl
bytes_after-size_after (mipmapped_array_destroy p) = refl
bytes_after-size_after memcpy_atoh = refl
bytes_after-size_after memcpy_dtoh = refl
bytes_after-size_after memcpy_htoa = refl
bytes_after-size_after memcpy_htod = refl
bytes_after-size_after ctx_synchronize = refl
bytes_after-size_after mipmapped_array_create = refl
bytes_after-size_after launch_kernel = refl
bytes_after-size_after launch_cooperative_kernel = refl
bytes_after-size_after (array_create w h c f) = rw (format_bytes-format_size f) refl
bytes_after-size_after (array3d_create w h z c f) = rw (format_bytes-format_size f) refl
