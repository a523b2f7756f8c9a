-- ===== src/Hook/Lookups.antt =====
-- Which driver functions are intercepted on the two ways of src/hook.cpp to an address.
use mathlib.Core.Path.{subst}
use fa_st_manager.Hook.Addresses.{
  Address, dlsym_names, dlsym, exported, dlsym_table, hooked, real, or_real, dlsym_from,
  plain_addresses, later_addresses, address_table, get_proc_address,
}
use fa_st_manager.Common.{
  List, [], ◌∷◌, none, some, true, false, refl, Name, Bool, codes, ◌≡◌, All, lookup, name_eq, ◌||◌,
  take, if◌then◌else◌, arith, name_eq_iff, text_eq, ◌&&◌, not, ◌++◌, Bool-cases, inl, inr, ℕ, ◌∙◌,
  ap,
}

abbrev pub among : Name → List Name → Bool
among n [] = false
among n (m ∷ ms) = name_eq m n || among n ms

abbrev pub is_real : Address → Bool
is_real real = true
is_real (exported _) = false
is_real (hooked _) = false

-- The names that `cuGetProcAddress` leaves alone.
abbrev pub missed : List Name
missed = codes "cuMemGetInfo" ∷ codes "cuMemcpyAtoHAsync" ∷ codes "cuMemcpyDtoHAsync" ∷ []

abbrev pub atoh : Name
atoh = codes "cuMemcpyAtoH"

or_real-if :
    (b : Bool) (a : Address) → or_real (if b then some a else none) ≡ (if b then a else real)
or_real-if true a = refl
or_real-if false a = refl

module _ (versioned : Name → Name) where
  -- Different functions keep different names.
  abbrev pub IsInjective : Type 0
  IsInjective = (m n : Name) → versioned m ≡ versioned n → m ≡ n

  -- The versioned names all begin with `cu`.
  abbrev pub IsDriver : Type 0
  IsDriver =
      (n : Name) → among n dlsym_names ≡ true → name_eq (take 2 (versioned n)) (codes "cu") ≡ true

  -- The versioned name of a function is not the plain name of another one of the table.
  abbrev pub IsOwn : Name → Type 0
  IsOwn m =
      (n : Name) → among n dlsym_names ≡ true → name_eq (versioned m) n ≡ true → name_eq m n ≡ true

  lookup-dlsym_table :
      IsInjective
      → (n : Name) (ns : List Name)
      → lookup (versioned n) (dlsym_table versioned ns)
        ≡ (if among n ns then some (exported (versioned n)) else none)
  lookup-dlsym_table inj n [] = refl
  lookup-dlsym_table inj n (m ∷ ms) = ground (
    arith,
    name_eq_iff (versioned m) (versioned n),
    name_eq_iff m n,
    inj m n,
    lookup-dlsym_table inj n ms,
  )

  dlsym_from_lem :
      IsInjective
      → (n : Name) (ns : List Name) → name_eq (take 2 (versioned n)) (codes "cu") ≡ true
      → dlsym_from versioned ns (versioned n)
        ≡ (if among n ns then exported (versioned n) else real)
  dlsym_from_lem inj n ns cu =
      rw (cu, lookup-dlsym_table inj n ns) (or_real-if (among n ns) (exported (versioned n)))

  -- `dlsym` gives the function of the hook library for exactly the names of its table: for the
  -- versioned name of any driver function, it gives the function of that name if the function is in the
  -- table, and otherwise what the real lookup gives.
  pub dlsym_lem :
      IsInjective
      → (n : Name) → name_eq (take 2 (versioned n)) (codes "cu") ≡ true
      → dlsym versioned (versioned n)
        ≡ (if among n dlsym_names then exported (versioned n) else real)
  unfolding dlsym
  dlsym_lem inj n cu = dlsym_from_lem inj n dlsym_names cu

  intercepted :
      IsInjective
      → (n : Name) → name_eq (take 2 (versioned n)) (codes "cu") ≡ true
      → among n dlsym_names ≡ true
      → is_real (dlsym versioned (versioned n)) ≡ false
  intercepted inj n cu h = rw (dlsym_lem inj n cu, h) refl

-- The table of `cuGetProcAddress` without the replacement: `x` and `y` say whether the two names that
-- are compared in their versioned form keep their plain form.
abbrev pub has : Name → List (Name × Address) → Bool
has n [] = false
has n ((k, a) ∷ t) = name_eq k n || has n t

has-append : (n : Name) (t u : List (Name × Address)) → has n (t ++ u) ≡ (has n t || has n u)
has-append n [] u = refl
has-append n ((k, a) ∷ t) u = ground (arith, has-append n t u)

abbrev given : Name × Address → Bool
given e = not (is_real e.1)

is_real-lookup :
    (n : Name) (t : List (Name × Address))
    → All (λ e. given e ≡ true) t
    → is_real (or_real (lookup n t)) ≡ not (has n t)
is_real-lookup n [] h = refl
is_real-lookup n ((k, a) ∷ t) (g, h) = elim (Bool-cases (name_eq k n)) [
  | inl e ↦ rw e (ground (arith, g))
  | inr e ↦ rw e (is_real-lookup n t h)
]

abbrev pub proc_address : Name
proc_address = codes "cuGetProcAddress"

-- Whether `cuGetProcAddress` leaves a name of the table of `dlsym` alone.
abbrev pub gap : Bool → Bool → Name → Bool
gap x y n = among n missed || (name_eq n proc_address && not x) || (name_eq n atoh && not y)

abbrev pub found : Bool → Bool → Name → Bool
found x y n =
    (name_eq proc_address n && x)
    || has n plain_addresses
    || (name_eq atoh n && y)
    || has n later_addresses
    || name_eq (codes "cuMipmappedArrayDestroy") n

abbrev eqb : Bool → Bool → Bool
eqb true b = b
eqb false b = not b

eqb-eq : (a b : Bool) → eqb a b ≡ true → a ≡ b
eqb-eq a b h = ground arith

abbrev pub all : (Name → Bool) → List Name → Bool
all p [] = true
all p (n ∷ ns) = p n && all p ns

abbrev gap_table : Bool → Bool → Name → Bool
gap_table x y n = eqb (not (found x y n)) (gap x y n)

found-gap : (x y : Bool) → all (gap_table x y) dlsym_names ≡ true
unfolding dlsym_names plain_addresses later_addresses
found-gap true true = refl
found-gap true false = refl
found-gap false true = refl
found-gap false false = refl

pub all-among :
    (p : Name → Bool) (ns : List Name)
    → all p ns ≡ true
    → (n : Name) → among n ns ≡ true
    → p n ≡ true
all-among p [] h n m = cc m
all-among p (k ∷ ks) h n m = elim (Bool-cases (name_eq k n)) [
  | inl e ↦ subst (λ j. p j ≡ true) ((name_eq_iff k n).0 e) (ground (arith, h))
  | inr e ↦ all-among p ks (ground (arith, h)) n (ground (arith, e, m))
]

reassociate :
    (a b c e f : Bool) → (a || (b || (c || (e || (f || false))))) ≡ (a || b || c || e || f)
reassociate a b c e f = ground arith

module _ (versioned : Name → Name) where
  own-lem :
      (m n : Name)
      → IsOwn versioned m
      → among n dlsym_names ≡ true
      → name_eq (versioned m) n ≡ (name_eq m n && name_eq (versioned m) m)
  own-lem m n own h =
      ground
        (arith, own n h, name_eq_iff (versioned m) n, name_eq_iff m n, name_eq_iff (versioned m) m)

  abbrev keeps : Name → Bool
  keeps m = name_eq (versioned m) m

  table-given : All (λ e. given e ≡ true) (address_table versioned)
  unfolding address_table plain_addresses later_addresses
  table-given = ground arith

  has-address_table :
      (n : Name)
      → has n (address_table versioned) ≡ (
          name_eq (versioned proc_address) n
          || (has n plain_addresses
              || (name_eq (versioned atoh) n
                  || (has n later_addresses
                      || (name_eq (codes "cuMipmappedArrayDestroy") n || false)))))
  unfolding address_table
  has-address_table n = simp has-append

  stored-found :
      (n : Name)
      → IsOwn versioned proc_address
      → IsOwn versioned atoh
      → among n dlsym_names ≡ true
      → has n (address_table versioned) ≡ found (keeps proc_address) (keeps atoh) n
  stored-found n own own' h =
      rw (has-address_table n, own-lem proc_address n own h, own-lem atoh n own' h)
        (reassociate (name_eq proc_address n && keeps proc_address) (has n plain_addresses)
          (name_eq atoh n && keeps atoh) (has n later_addresses)
          (name_eq (codes "cuMipmappedArrayDestroy") n))

  -- On each name of the table of `dlsym` the two ways agree, its versioned form with `dlsym` and its plain
  -- form with `cuGetProcAddress`, except that `cuGetProcAddress` leaves alone `cuMemGetInfo`, the two
  -- asynchronous copies, and `cuGetProcAddress` and `cuMemcpyAtoH` where cuda.h gives them a version. The
  -- versioned names begin with `cu`, differ, and are not the plain names of other functions.
  pub ways_agree :
      IsInjective versioned
      → IsDriver versioned
      → IsOwn versioned proc_address
      → IsOwn versioned atoh
      → (pfn : ℕ) (func_actual : List (ℕ × ℕ)) (n : Name) → among n dlsym_names ≡ true
      → (is_real (dlsym versioned (versioned n)) ≡ false)
        × (is_real (get_proc_address versioned n pfn func_actual).0
            ≡ gap (keeps proc_address) (keeps atoh) n)
  unfolding get_proc_address
  ways_agree inj cu own own' pfn func_actual n h = (
    intercepted versioned inj n (cu n h) h,
    is_real-lookup n (address_table versioned) table-given
        ∙ ap not (stored-found n own own' h)
        ∙ eqb-eq _ _ (
            all-among (gap_table (keeps proc_address) (keeps atoh)) dlsym_names
              (found-gap (keeps proc_address) (keeps atoh)) n h),
  )
