-- ===== src/Hook/Functions.antt =====
-- The functions that the macros CU_HOOK_GENERATE_INTERCEPT... of src/hook.cpp generate, with the function
-- of the driver that each looks up: `next` is `real_dlsym(RTLD_NEXT, ...)`, and `versioned` the macros of
-- cuda.h.
use fa_st_manager.Common.{
  Option, none, some, Bool, true, false, Name, codes, if◌then◌else◌, ◌>>=◌, ◌≡◌, refl,
}
use fa_st_manager.Double.{Double}
use fa_st_manager.Hook.Intercept.{Driver, pre_hook, post_hook, counted, is_success}
use fa_st_manager.Hook.State.{CuResult, Hook, Peer}
use fa_st_manager.Hook.Symbols.{
  DriverCall, HookSymbol, address_symbol, exported_symbol, symbol_index, memcpy_atoh, memcpy_dtoh,
  memcpy_htoa, memcpy_htod, ctx_synchronize, mem_alloc, mem_alloc_managed, mem_alloc_pitch,
  mem_free, array_create, array3d_create, mipmapped_array_create, array_destroy,
  mipmapped_array_destroy, launch_kernel, launch_cooperative_kernel,
}
use fa_st_manager.Hook.Tokens.{Readings}

-- A function of the driver: what it does with a call.
abbrev pub DriverFunction : Type 0
DriverFunction = DriverCall → Driver

-- The name with which the function for a call is generated.
unfoldable pub plain_name : DriverCall → Name
plain_name memcpy_atoh = codes "cuMemcpyAtoH"
plain_name memcpy_dtoh = codes "cuMemcpyDtoH"
plain_name memcpy_htoa = codes "cuMemcpyHtoA"
plain_name memcpy_htod = codes "cuMemcpyHtoD"
plain_name ctx_synchronize = codes "cuCtxSynchronize"
plain_name (mem_alloc _) = codes "cuMemAlloc"
plain_name (mem_alloc_managed _) = codes "cuMemAllocManaged"
plain_name (mem_alloc_pitch _ _ _) = codes "cuMemAllocPitch"
plain_name (mem_free _) = codes "cuMemFree"
plain_name (array_create _ _ _ _) = codes "cuArrayCreate"
plain_name (array3d_create _ _ _ _ _) = codes "cuArray3DCreate"
plain_name mipmapped_array_create = codes "cuMipmappedArrayCreate"
plain_name (array_destroy _) = codes "cuArrayDestroy"
plain_name (mipmapped_array_destroy _) = codes "cuMipmappedArrayDestroy"
plain_name launch_kernel = codes "cuLaunchKernel"
plain_name launch_cooperative_kernel = codes "cuLaunchCooperativeKernel"

-- The name that is looked up, and the call that goes to the driver: `cuMemAlloc` becomes
-- `cuMemAllocManaged` with CU_MEM_ATTACH_GLOBAL. That name is a literal and has no version.
unfoldable pub real_name : (Name → Name) → DriverCall → Name
unfolding plain_name
real_name versioned (mem_alloc bytes) = codes "cuMemAllocManaged"
real_name versioned call = versioned (plain_name call)

unfoldable pub real_call : DriverCall → DriverCall
real_call (mem_alloc bytes) = mem_alloc_managed bytes
real_call call = call

-- `static void *real_func = ...`: the first lookup counts, even if it found nothing.
abbrev pub first_found :
    Option (Option DriverFunction) → Option DriverFunction → Option DriverFunction
first_found none found = found
first_found (some old) found = old

-- Of the functions under their own names, only `cuMemAlloc` has such an initialisation.
abbrev pub has_static : DriverCall → Bool
has_static (mem_alloc _) = true
has_static _ = false

-- What a function under its own name calls; `static` is what an earlier call has left in `real_func`.
abbrev pub found_for :
    (Name → Name)
    → (Name → Option DriverFunction)
    → Option (Option DriverFunction)
    → DriverCall
    → Option DriverFunction
found_for versioned next static call =
    let found = next (real_name versioned call) in
    if has_static call then first_found static found else found

module _ {ℓ κ} {W : Type ℓ} {S : Type κ} ⦃d : Double W⦄ (peer : Peer S) where
  -- The common body. A call of a function that was not found is undefined.
  unfoldable pub generated :
      Option DriverFunction
      → HookSymbol
      → DriverCall
      → Readings W
      → Hook W S
      → Option (CuResult × Hook W S)
  unfolding pre_hook post_hook symbol_index real_call
  generated found symbol call t k =
      pre_hook peer symbol call t (counted peer symbol k) >>= λ before.
      (if is_success before.0
        then (found >>= λ f.
            (let v = f (real_call call) in
              if is_success v.result
              then post_hook peer symbol call v t before.1
              else some (v.result, before.1)))
        else some before)

  module _ (versioned : Name → Name) (next : Name → Option DriverFunction) where
    -- `hook_...`
    unfoldable pub hooked_function :
        DriverCall → Readings W → Hook W S → Option (CuResult × Hook W S)
    unfolding generated real_name address_symbol
    hooked_function call t k =
        generated (next (real_name versioned call)) (address_symbol call) call t k

    unfoldable pub exported_function :
        Option (Option DriverFunction)
        → DriverCall
        → Readings W
        → Hook W S
        → Option (CuResult × Hook W S)
    unfolding generated real_name exported_symbol
    exported_function static call t k =
        generated (found_for versioned next static call) (exported_symbol call) call t k

    -- Both give the same for every call but that of `cuMemAlloc`.
    pub hooked-exported :
        (static : Option (Option DriverFunction)) (call : DriverCall) (t : Readings W)
        (k : Hook W S)
        → has_static call ≡ false
        → hooked_function call t k ≡ exported_function static call t k
    unfolding hooked_function exported_function
    hooked-exported static memcpy_atoh t k h = refl
    hooked-exported static memcpy_dtoh t k h = refl
    hooked-exported static memcpy_htoa t k h = refl
    hooked-exported static memcpy_htod t k h = refl
    hooked-exported static ctx_synchronize t k h = refl
    hooked-exported static (mem_alloc b) t k h = cc
    hooked-exported static (mem_alloc_managed b) t k h = refl
    hooked-exported static (mem_alloc_pitch a b c) t k h = refl
    hooked-exported static (mem_free p) t k h = refl
    hooked-exported static (array_create a b c f) t k h = refl
    hooked-exported static (array3d_create a b c e f) t k h = refl
    hooked-exported static mipmapped_array_create t k h = refl
    hooked-exported static (array_destroy p) t k h = refl
    hooked-exported static (mipmapped_array_destroy p) t k h = refl
    hooked-exported static launch_kernel t k h = refl
    hooked-exported static launch_cooperative_kernel t k h = refl
