-- ===== src/Older/Lookups.antt =====
-- The two versions of `dlsym` and of `cuGetProcAddress`.
use fa_st_manager.Common.{
  ℕ, List, ◌≡◌, refl, Name, not, true, false, Bool, if◌then◌else◌, name_eq, take, codes, lookup,
  text_eq,
}
use fa_st_manager.Hook.Addresses
use fa_st_manager.Hook.Addresses.{Address, dlsym_table, real, or_real}
use fa_st_manager.Older.Addresses as OlderAddresses

not-if {ℓ} : {A : Type ℓ} (b : Bool) (x y : A) → (if not b then x else y) ≡ (if b then y else x)
not-if true x y = refl
not-if false x y = refl

-- Both versions give the same address for every name on either way, and leave the same in
-- `func_actual`, whatever the macros of cuda.h.
pub addresses_agree :
    (versioned : Name → Name) (symbol : Name) (pfn : ℕ) (func_actual : List (ℕ × ℕ))
    → (OlderAddresses.dlsym versioned symbol ≡ Addresses.dlsym versioned symbol)
      × (OlderAddresses.get_proc_address versioned symbol pfn func_actual
          ≡ Addresses.get_proc_address versioned symbol pfn func_actual)
unfolding Addresses.dlsym OlderAddresses.dlsym Addresses.get_proc_address
    OlderAddresses.get_proc_address Addresses.dlsym_names OlderAddresses.dlsym_names
    Addresses.plain_addresses Addresses.later_addresses OlderAddresses.plain_addresses
    OlderAddresses.later_addresses
addresses_agree versioned symbol pfn func_actual = (
  not-if (name_eq (take 2 symbol) (codes "cu")) real
      (or_real (lookup symbol (dlsym_table versioned Addresses.dlsym_names))),
  refl,
)
