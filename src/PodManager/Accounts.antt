-- ===== src/PodManager/Accounts.antt =====
-- The memory accounting of src/pod-manager.cpp: what is used is the sum of what the connections hold.
use fa_st_manager.PodManager.State.{held}
use fa_st_manager.Common.{
  ℕ, List, [], ◌∷◌, ◌+◌, is_some, insert, erase, lookup, ◌≤◌, ◌≡◌, arith, false, if◌then◌else◌,
  nat_eq, ◌==◌, refl, true, lookup-erase, lookup-insert,
}

abbrev pub total : List (ℕ × ℕ) → ℕ
total [] = 0
total ((k, v) ∷ m) = v + total m

-- Every key of the map stands in it once.
abbrev pub Distinct {ℓ} : {V : Type ℓ} → List (ℕ × V) → Type 0
Distinct [] = Unit
Distinct ((k, v) ∷ m) = (is_some (lookup k m) ≡ false) × Distinct m

pub held-le-total : (k : ℕ) (m : List (ℕ × ℕ)) → held k m ≤ total m
held-le-total k [] = omega arith
held-le-total k ((j, v) ∷ m) = ground (arith, held-le-total k m)

pub total-insert : (k v : ℕ) (m : List (ℕ × ℕ)) → total (insert k v m) + held k m ≡ total m + v
total-insert k v [] = omega arith
total-insert k v ((j, w) ∷ m) = ground (arith, total-insert k v m)

pub is_some-insert :
    (k j v : ℕ) (m : List (ℕ × ℕ))
    → is_some (lookup j (insert k v m)) ≡ (if k == j then true else is_some (lookup j m))
is_some-insert k j v m = ground (arith, lookup-insert k j v m)

pub is_some-erase :
    (k j : ℕ) (m : List (ℕ × ℕ))
    → is_some (lookup j (erase k m)) ≡ (if k == j then false else is_some (lookup j m))
is_some-erase k j m = ground (arith, lookup-erase k j m)

pub insert-Distinct : (k v : ℕ) (m : List (ℕ × ℕ)) → Distinct m → Distinct (insert k v m)
insert-Distinct k v [] h = (refl, tt)
insert-Distinct k v ((j, w) ∷ m) (hj, h) =
    ground (arith, insert-Distinct k v m h, is_some-insert k j v m)

pub erase-Distinct : (k : ℕ) (m : List (ℕ × ℕ)) → Distinct m → Distinct (erase k m)
erase-Distinct k [] h = tt
erase-Distinct k ((j, w) ∷ m) (hj, h) = ground (arith, erase-Distinct k m h, is_some-erase k j m)

pub total-erase_absent :
    (k : ℕ) (m : List (ℕ × ℕ)) → is_some (lookup k m) ≡ false → total (erase k m) ≡ total m
total-erase_absent k [] h = refl
total-erase_absent k ((j, w) ∷ m) h = ground (arith, total-erase_absent k m)

pub total-erase : (k : ℕ) (m : List (ℕ × ℕ)) → Distinct m → total (erase k m) + held k m ≡ total m
total-erase k [] h = omega arith
total-erase k ((j, w) ∷ m) (hj, h) = ground (arith, total-erase k m h, total-erase_absent k m)

pub erase-insert {ℓ} :
    {V : Type ℓ} (k : ℕ) (v : V) (m : List (ℕ × V)) → erase k (insert k v m) ≡ erase k m
erase-insert k v [] = ground arith
erase-insert k v ((j, w) ∷ m) = ground (arith, erase-insert k v m)

pub erase_absent {ℓ} :
    {V : Type ℓ} (k : ℕ) (m : List (ℕ × V)) → is_some (lookup k m) ≡ false → erase k m ≡ m
erase_absent k [] h = refl
erase_absent k ((j, w) ∷ m) h = ground (arith, erase_absent k m)

pub held-insert : (k v : ℕ) (m : List (ℕ × ℕ)) → held k (insert k v m) ≡ v
held-insert k v m = ground (arith, lookup-insert k k v m)
