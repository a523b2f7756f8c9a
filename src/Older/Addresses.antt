-- ===== src/Older/Addresses.antt =====
-- How a client finds the functions of docker/kubeshare-gemini-scheduler/hook.cpp: its `dlsym` and its
-- `cuGetProcAddress`. `versioned` is as in Hook/Addresses.
use fa_st_manager.Common.{
  ℕ, List, [], ◌∷◌, ◌++◌, Name, codes, if◌then◌else◌, name_eq, lookup, take, map, insert, not,
  text_eq, nat_eq,
}
use fa_st_manager.Hook.Addresses.{Address, real, exported, hooked, or_real}
use fa_st_manager.Hook.Symbols.{symbol_index, hook_get_proc_address, hook_mem_alloc}

-- The names that `dlsym` compares with, in order.
unfoldable pub dlsym_names : List Name
dlsym_names =
    codes "cuGetProcAddress"
    ∷ codes "cuMemAlloc"
    ∷ codes "cuMemAllocManaged"
    ∷ codes "cuMemAllocPitch"
    ∷ codes "cuMemFree"
    ∷ codes "cuArrayCreate"
    ∷ codes "cuArray3DCreate"
    ∷ codes "cuArrayDestroy"
    ∷ codes "cuMipmappedArrayCreate"
    ∷ codes "cuMipmappedArrayDestroy"
    ∷ codes "cuLaunchKernel"
    ∷ codes "cuLaunchCooperativeKernel"
    ∷ codes "cuMemGetInfo"
    ∷ codes "cuCtxSynchronize"
    ∷ codes "cuMemcpyAtoH"
    ∷ codes "cuMemcpyAtoHAsync"
    ∷ codes "cuMemcpyDtoH"
    ∷ codes "cuMemcpyDtoHAsync"
    ∷ codes "cuMemcpyHtoA"
    ∷ codes "cuMemcpyHtoD"
    ∷ []

-- The names that `cuGetProcAddress` compares with after an `#undef`, in order, with what it stores.
unfoldable pub plain_addresses : List (Name × Address)
plain_addresses =
    (codes "cuMemAlloc", hooked (codes "cuMemAlloc"))
    ∷ (codes "cuMemAllocManaged", hooked (codes "cuMemAllocManaged"))
    ∷ (codes "cuMemAllocPitch", hooked (codes "cuMemAllocPitch"))
    ∷ (codes "cuMemFree", hooked (codes "cuMemFree"))
    ∷ (codes "cuCtxSynchronize", hooked (codes "cuCtxSynchronize"))
    ∷ (codes "cuMemcpyHtoD", hooked (codes "cuMemcpyHtoD"))
    ∷ (codes "cuMemcpyDtoH", hooked (codes "cuMemcpyDtoH"))
    ∷ []

unfoldable pub later_addresses : List (Name × Address)
later_addresses =
    (codes "cuMemcpyHtoA", hooked (codes "cuMemcpyHtoA"))
    ∷ (codes "cuLaunchKernel", hooked (codes "cuLaunchKernel"))
    ∷ (codes "cuLaunchCooperativeKernel", hooked (codes "cuLaunchCooperativeKernel"))
    ∷ (codes "cuArrayCreate", hooked (codes "cuArrayCreate"))
    ∷ (codes "cuArray3DCreate", hooked (codes "cuArray3DCreate"))
    ∷ (codes "cuMipmappedArrayCreate", hooked (codes "cuMipmappedArrayCreate"))
    ∷ (codes "cuArrayDestroy", hooked (codes "cuArrayDestroy"))
    ∷ []

module _ (versioned : Name → Name) where
  unfoldable pub dlsym : Name → Address
  dlsym symbol =
      if not (name_eq (take 2 symbol) (codes "cu"))
      then real
      else or_real (lookup symbol (map (λ n. (versioned n, exported (versioned n))) dlsym_names))

  -- Here too the `#undef` before `cuMemcpyAtoH` names another function, and `cuGetProcAddress` has none.
  unfoldable pub address_table : List (Name × Address)
  address_table =
      (versioned (codes "cuGetProcAddress"), exported (versioned (codes "cuGetProcAddress")))
      ∷ (plain_addresses
          ++ ((versioned (codes "cuMemcpyAtoH"), exported (versioned (codes "cuMemcpyAtoH")))
              ∷ (later_addresses
                  ++ ((
                    codes "cuMipmappedArrayDestroy",
                    exported (versioned (codes "cuMipmappedArrayDestroy")),
                  )
                      ∷ []))))

  -- The address that is stored through `pfn`, and `func_actual` with `pfn`, what the real function
  -- stored there.
  unfoldable pub get_proc_address : Name → ℕ → List (ℕ × ℕ) → Address × List (ℕ × ℕ)
  unfolding address_table symbol_index
  get_proc_address symbol pfn func_actual = (
    or_real (lookup symbol address_table),
    if name_eq symbol (versioned (codes "cuGetProcAddress"))
        then insert (symbol_index hook_get_proc_address) pfn func_actual
        else (if name_eq symbol (codes "cuMemAlloc")
            then insert (symbol_index hook_mem_alloc) pfn func_actual
            else func_actual),
  )
