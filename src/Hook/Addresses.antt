-- ===== src/Hook/Addresses.antt =====
-- How a client finds the functions of the hook library: `dlsym` and `cuGetProcAddress` of src/hook.cpp.
-- A name in the source is first subject to the macros of cuda.h, which give most functions a version
-- suffix: `versioned` is that replacement.
use fa_st_manager.Hook.Symbols.{symbol_index, hook_get_proc_address, hook_mem_alloc}
use fa_st_manager.Common.{
  ℕ, List, [], ◌∷◌, Option, none, some, Name, codes, if◌then◌else◌, name_eq, ◌++◌, lookup, take,
  insert, text_eq, nat_eq,
}

-- What the caller gets: what the real lookup gives, the function of a name, or its variant `hook_...`.
pub data Address : Type 0 where
  real : Address
  exported : Name → Address
  hooked : Name → Address

abbrev pub or_real : Option Address → Address
or_real none = real
or_real (some a) = a

-- The names that `dlsym` compares with, in order.
unfoldable pub dlsym_names : List Name
dlsym_names =
    codes "cuGetProcAddress"
    ∷ codes "cuMemAlloc"
    ∷ codes "cuMemAllocManaged"
    ∷ codes "cuMemAllocPitch"
    ∷ codes "cuMemFree"
    ∷ codes "cuArrayCreate"
    ∷ codes "cuArray3DCreate"
    ∷ codes "cuArrayDestroy"
    ∷ codes "cuMipmappedArrayCreate"
    ∷ codes "cuMipmappedArrayDestroy"
    ∷ codes "cuLaunchKernel"
    ∷ codes "cuLaunchCooperativeKernel"
    ∷ codes "cuMemGetInfo"
    ∷ codes "cuCtxSynchronize"
    ∷ codes "cuMemcpyAtoH"
    ∷ codes "cuMemcpyAtoHAsync"
    ∷ codes "cuMemcpyDtoH"
    ∷ codes "cuMemcpyDtoHAsync"
    ∷ codes "cuMemcpyHtoA"
    ∷ codes "cuMemcpyHtoD"
    ∷ []

-- The names that `cuGetProcAddress` compares with after an `#undef`, in order, with what it stores.
unfoldable pub plain_addresses : List (Name × Address)
plain_addresses =
    (codes "cuMemAlloc", hooked (codes "cuMemAlloc"))
    ∷ (codes "cuMemAllocManaged", hooked (codes "cuMemAllocManaged"))
    ∷ (codes "cuMemAllocPitch", hooked (codes "cuMemAllocPitch"))
    ∷ (codes "cuMemFree", hooked (codes "cuMemFree"))
    ∷ (codes "cuCtxSynchronize", hooked (codes "cuCtxSynchronize"))
    ∷ (codes "cuMemcpyHtoD", hooked (codes "cuMemcpyHtoD"))
    ∷ (codes "cuMemcpyDtoH", hooked (codes "cuMemcpyDtoH"))
    ∷ []

unfoldable pub later_addresses : List (Name × Address)
later_addresses =
    (codes "cuMemcpyHtoA", hooked (codes "cuMemcpyHtoA"))
    ∷ (codes "cuLaunchKernel", hooked (codes "cuLaunchKernel"))
    ∷ (codes "cuLaunchCooperativeKernel", hooked (codes "cuLaunchCooperativeKernel"))
    ∷ (codes "cuArrayCreate", hooked (codes "cuArrayCreate"))
    ∷ (codes "cuArray3DCreate", hooked (codes "cuArray3DCreate"))
    ∷ (codes "cuMipmappedArrayCreate", hooked (codes "cuMipmappedArrayCreate"))
    ∷ (codes "cuArrayDestroy", hooked (codes "cuArrayDestroy"))
    ∷ []

module _ (versioned : Name → Name) where
  -- The chain of `strcmp`.
  abbrev pub dlsym_table : List Name → List (Name × Address)
  dlsym_table [] = []
  dlsym_table (n ∷ ns) = (versioned n, exported (versioned n)) ∷ dlsym_table ns

  abbrev pub dlsym_from : List Name → Name → Address
  dlsym_from names symbol =
      if name_eq (take 2 symbol) (codes "cu")
      then or_real (lookup symbol (dlsym_table names))
      else real

  unfoldable pub dlsym : Name → Address
  dlsym symbol = dlsym_from dlsym_names symbol

  -- `cuMemcpyAtoH` is compared as cuda.h has it: the `#undef` before it names `cuMemcpyDtoH` once more.
  -- So is `cuGetProcAddress`, which has none.
  unfoldable pub address_table : List (Name × Address)
  address_table =
      (versioned (codes "cuGetProcAddress"), exported (versioned (codes "cuGetProcAddress")))
      ∷ (plain_addresses
          ++ ((versioned (codes "cuMemcpyAtoH"), exported (versioned (codes "cuMemcpyAtoH")))
              ∷ (later_addresses
                  ++ ((
                    codes "cuMipmappedArrayDestroy",
                    exported (versioned (codes "cuMipmappedArrayDestroy")),
                  )
                      ∷ []))))

  -- The address that is stored through `pfn`, and `func_actual` with `pfn`, what the real function
  -- stored there.
  unfoldable pub get_proc_address : Name → ℕ → List (ℕ × ℕ) → Address × List (ℕ × ℕ)
  unfolding address_table symbol_index
  get_proc_address symbol pfn func_actual = (
    or_real (lookup symbol address_table),
    if name_eq symbol (versioned (codes "cuGetProcAddress"))
        then insert (symbol_index hook_get_proc_address) pfn func_actual
        else (if name_eq symbol (codes "cuMemAlloc")
            then insert (symbol_index hook_mem_alloc) pfn func_actual
            else func_actual),
  )
