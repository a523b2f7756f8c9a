-- ===== src/Hook/Symbols.antt =====
-- `HookSymbols` of src/hook.h, and the intercepted functions with the symbol that each is generated
-- with: once under its own name, and once as `hook_...` for `cuGetProcAddress`.
use fa_st_manager.Hook.Memory.{ArrayFormat}
use fa_st_manager.Common.{ℕ}

pub data HookSymbol : Type 0 where
  hook_get_proc_address hook_mem_alloc hook_mem_alloc_managed hook_mem_alloc_pitch hook_mem_free
        hook_array_create hook_array3d_create hook_mipmapped_array_create hook_array_destroy
        hook_mipmapped_array_destroy hook_ctx_get_current hook_ctx_set_current hook_ctx_destroy
        hook_launch_kernel hook_launch_cooperative_kernel hook_device_total_mem hook_mem_info
        hook_ctx_sync hook_memcpy_atoh hook_memcpy_dtoh hook_memcpy_htoa hook_memcpy_htod :
      HookSymbol

-- The value of the enumeration.
unfoldable pub symbol_index : HookSymbol → ℕ
symbol_index hook_get_proc_address = 0
symbol_index hook_mem_alloc = 1
symbol_index hook_mem_alloc_managed = 2
symbol_index hook_mem_alloc_pitch = 3
symbol_index hook_mem_free = 4
symbol_index hook_array_create = 5
symbol_index hook_array3d_create = 6
symbol_index hook_mipmapped_array_create = 7
symbol_index hook_array_destroy = 8
symbol_index hook_mipmapped_array_destroy = 9
symbol_index hook_ctx_get_current = 10
symbol_index hook_ctx_set_current = 11
symbol_index hook_ctx_destroy = 12
symbol_index hook_launch_kernel = 13
symbol_index hook_launch_cooperative_kernel = 14
symbol_index hook_device_total_mem = 15
symbol_index hook_mem_info = 16
symbol_index hook_ctx_sync = 17
symbol_index hook_memcpy_atoh = 18
symbol_index hook_memcpy_dtoh = 19
symbol_index hook_memcpy_htoa = 20
symbol_index hook_memcpy_htod = 21

-- The calls of the intercepted functions, with the arguments that the hooks use. A pitch is given as
-- it stands before the call and as the driver leaves it.
pub data DriverCall : Type 0 where
  memcpy_atoh memcpy_dtoh memcpy_htoa memcpy_htod ctx_synchronize : DriverCall
  mem_alloc : (bytes : ℕ) → DriverCall
  mem_alloc_managed : (bytes : ℕ) → DriverCall
  mem_alloc_pitch : (before after height : ℕ) → DriverCall
  mem_free : (ptr : ℕ) → DriverCall
  array_create : (width height channels : ℕ) → ArrayFormat → DriverCall
  array3d_create : (width height depth channels : ℕ) → ArrayFormat → DriverCall
  mipmapped_array_create : DriverCall
  array_destroy : (handle : ℕ) → DriverCall
  mipmapped_array_destroy : (handle : ℕ) → DriverCall
  launch_kernel launch_cooperative_kernel : DriverCall

-- Of the functions under their own names.
unfoldable pub exported_symbol : DriverCall → HookSymbol
exported_symbol memcpy_atoh = hook_memcpy_atoh
exported_symbol memcpy_dtoh = hook_memcpy_dtoh
exported_symbol memcpy_htoa = hook_memcpy_htoa
exported_symbol memcpy_htod = hook_memcpy_htod
exported_symbol ctx_synchronize = hook_ctx_sync
exported_symbol (mem_alloc _) = hook_mem_alloc
exported_symbol (mem_alloc_managed _) = hook_mem_alloc_managed
exported_symbol (mem_alloc_pitch _ _ _) = hook_mem_alloc_pitch
exported_symbol (mem_free _) = hook_mem_free
exported_symbol (array_create _ _ _ _) = hook_array_create
exported_symbol (array3d_create _ _ _ _ _) = hook_array3d_create
exported_symbol mipmapped_array_create = hook_mipmapped_array_create
exported_symbol (array_destroy _) = hook_array_destroy
exported_symbol (mipmapped_array_destroy _) = hook_mipmapped_array_destroy
exported_symbol launch_kernel = hook_launch_kernel
exported_symbol launch_cooperative_kernel = hook_launch_cooperative_kernel

-- Of the functions that `cuGetProcAddress` gives: those of the others, except for `hook_cuMemAlloc`.
unfoldable pub address_symbol : DriverCall → HookSymbol
address_symbol (mem_alloc _) = hook_mem_alloc_managed
address_symbol memcpy_atoh = hook_memcpy_atoh
address_symbol memcpy_dtoh = hook_memcpy_dtoh
address_symbol memcpy_htoa = hook_memcpy_htoa
address_symbol memcpy_htod = hook_memcpy_htod
address_symbol ctx_synchronize = hook_ctx_sync
address_symbol (mem_alloc_managed _) = hook_mem_alloc_managed
address_symbol (mem_alloc_pitch _ _ _) = hook_mem_alloc_pitch
address_symbol (mem_free _) = hook_mem_free
address_symbol (array_create _ _ _ _) = hook_array_create
address_symbol (array3d_create _ _ _ _ _) = hook_array3d_create
address_symbol mipmapped_array_create = hook_mipmapped_array_create
address_symbol (array_destroy _) = hook_array_destroy
address_symbol (mipmapped_array_destroy _) = hook_mipmapped_array_destroy
address_symbol launch_kernel = hook_launch_kernel
address_symbol launch_cooperative_kernel = hook_launch_cooperative_kernel
