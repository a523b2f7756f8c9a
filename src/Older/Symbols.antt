-- ===== src/Older/Symbols.antt =====
-- The symbols with which docker/kubeshare-gemini-scheduler/hook.cpp generates its functions.
use fa_st_manager.Common.{◌≡◌, refl}
use fa_st_manager.Hook.Symbols.{
  HookSymbol, DriverCall, array3d_create, array_create, array_destroy, ctx_synchronize,
  hook_array3d_create, hook_array_create, hook_array_destroy, hook_ctx_sync,
  hook_launch_cooperative_kernel, hook_launch_kernel, hook_mem_alloc, hook_mem_alloc_managed,
  hook_mem_alloc_pitch, hook_mem_free, hook_memcpy_atoh, hook_memcpy_dtoh, hook_memcpy_htoa,
  hook_memcpy_htod, hook_mipmapped_array_create, hook_mipmapped_array_destroy,
  launch_cooperative_kernel, launch_kernel, mem_alloc, mem_alloc_managed, mem_alloc_pitch, mem_free,
  memcpy_atoh, memcpy_dtoh, memcpy_htoa, memcpy_htod, mipmapped_array_create,
  mipmapped_array_destroy,
}

-- Of the functions under their own names.
unfoldable pub exported_symbol : DriverCall → HookSymbol
exported_symbol memcpy_atoh = hook_memcpy_atoh
exported_symbol memcpy_dtoh = hook_memcpy_dtoh
exported_symbol memcpy_htoa = hook_memcpy_htoa
exported_symbol memcpy_htod = hook_memcpy_htod
exported_symbol ctx_synchronize = hook_ctx_sync
exported_symbol (mem_alloc _) = hook_mem_alloc
exported_symbol (mem_alloc_managed _) = hook_mem_alloc_managed
exported_symbol (mem_alloc_pitch _ _ _) = hook_mem_alloc_pitch
exported_symbol (mem_free _) = hook_mem_free
exported_symbol (array_create _ _ _ _) = hook_array_create
exported_symbol (array3d_create _ _ _ _ _) = hook_array3d_create
exported_symbol mipmapped_array_create = hook_mipmapped_array_create
exported_symbol (array_destroy _) = hook_array_destroy
exported_symbol (mipmapped_array_destroy _) = hook_mipmapped_array_destroy
exported_symbol launch_kernel = hook_launch_kernel
exported_symbol launch_cooperative_kernel = hook_launch_cooperative_kernel

-- Of the functions `hook_...` for `cuGetProcAddress`.
unfoldable pub address_symbol : DriverCall → HookSymbol
address_symbol memcpy_atoh = hook_memcpy_atoh
address_symbol memcpy_dtoh = hook_memcpy_dtoh
address_symbol memcpy_htoa = hook_memcpy_htoa
address_symbol memcpy_htod = hook_memcpy_htod
address_symbol ctx_synchronize = hook_ctx_sync
address_symbol (mem_alloc _) = hook_mem_alloc
address_symbol (mem_alloc_managed _) = hook_mem_alloc_managed
address_symbol (mem_alloc_pitch _ _ _) = hook_mem_alloc_pitch
address_symbol (mem_free _) = hook_mem_free
address_symbol (array_create _ _ _ _) = hook_array_create
address_symbol (array3d_create _ _ _ _ _) = hook_array3d_create
address_symbol mipmapped_array_create = hook_mipmapped_array_create
address_symbol (array_destroy _) = hook_array_destroy
address_symbol (mipmapped_array_destroy _) = hook_mipmapped_array_destroy
address_symbol launch_kernel = hook_launch_kernel
address_symbol launch_cooperative_kernel = hook_launch_cooperative_kernel

-- Unlike in the newer version, both ways lead to the same hooks.
pub address-exported : (call : DriverCall) → address_symbol call ≡ exported_symbol call
unfolding address_symbol exported_symbol
address-exported memcpy_atoh = refl
address-exported memcpy_dtoh = refl
address-exported memcpy_htoa = refl
address-exported memcpy_htod = refl
address-exported ctx_synchronize = refl
address-exported (mem_alloc _) = refl
address-exported (mem_alloc_managed _) = refl
address-exported (mem_alloc_pitch _ _ _) = refl
address-exported (mem_free _) = refl
address-exported (array_create _ _ _ _) = refl
address-exported (array3d_create _ _ _ _ _) = refl
address-exported mipmapped_array_create = refl
address-exported (array_destroy _) = refl
address-exported (mipmapped_array_destroy _) = refl
address-exported launch_kernel = refl
address-exported launch_cooperative_kernel = refl
