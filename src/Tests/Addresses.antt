-- ===== src/Tests/Addresses.antt =====
-- The two ways to an address, where cuda.h gives every function the suffix `_v2`.
use mathlib.Core.List.{append_cancel_right}
use fa_st_manager.Common.{true, false, refl, arith, ◌≡◌, Name, codes, name_eq, take, ◌++◌, [], not}
use fa_st_manager.Older.Lookups.{addresses_agree}
use fa_st_manager.Older.Addresses as OlderAddresses
use fa_st_manager.Hook.Addresses
use fa_st_manager.Hook.Addresses.{dlsym, dlsym_names, get_proc_address}
use fa_st_manager.Hook.Lookups.{
  IsInjective, IsDriver, IsOwn, proc_address, atoh, all-among, ways_agree, is_real, all,
}

abbrev suffixed : Name → Name
suffixed n = n ++ codes "_v2"

suffixed-IsInjective : IsInjective suffixed
suffixed-IsInjective m n e = append_cancel_right m n (codes "_v2") e

suffixed-IsDriver : IsDriver suffixed
unfolding dlsym_names
suffixed-IsDriver n h =
    all-among (λ k. name_eq (take 2 (suffixed k)) (codes "cu")) dlsym_names refl n h

-- No suffixed name is a plain name of the table.
other_names :
    (m : Name) → all (λ k. not (name_eq (suffixed m) k)) dlsym_names ≡ true → IsOwn suffixed m
other_names m h n a e =
    absurd (ground (arith, all-among (λ k. not (name_eq (suffixed m) k)) dlsym_names h n a, e))

ways_agree_example :
    (is_real (dlsym suffixed (codes "cuMemFree_v2")) ≡ false)
    × (is_real (get_proc_address suffixed (codes "cuMemFree") 7 []).0 ≡ false)
unfolding dlsym_names
ways_agree_example =
    ways_agree suffixed suffixed-IsInjective suffixed-IsDriver (other_names proc_address refl)
      (other_names atoh refl) 7 [] (codes "cuMemFree") refl

addresses_agree_example :
    (OlderAddresses.dlsym suffixed (codes "cuMemAlloc")
      ≡ Addresses.dlsym suffixed (codes "cuMemAlloc"))
    × (OlderAddresses.get_proc_address suffixed (codes "cuMemAlloc") 7 []
        ≡ Addresses.get_proc_address suffixed (codes "cuMemAlloc") 7 [])
addresses_agree_example = addresses_agree suffixed (codes "cuMemAlloc") 7 []
