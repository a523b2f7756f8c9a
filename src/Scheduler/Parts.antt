-- ===== src/Scheduler/Parts.antt =====
-- The partition that the client map gives a name, and the sum over tokens.
use fa_st_manager.Common.{
  ℕ, ◌+◌, ◌^◌, ◌<◌, ◌≡◌, refl, List, [], ◌∷◌, ◌++◌, Option, none, some, Name, lookup, insert,
  lookup-insert, name_eq_iff, text_eq, is_some, arith, true, ap, Option-cases, inl, inr,
}
use fa_st_manager.Scheduler.Client.{ClientInfo}
use fa_st_manager.Scheduler.State.{Candidate, Clients}

abbrev pub size_of : Option ℕ → ℕ
size_of none = 0
size_of (some n) = n

module _ {ℓ} {W : Type ℓ} where
  abbrev pub part : Clients W → Name → Option ℕ
  part m j = elim (lookup j m) [ none ↦ none | some c ↦ some c.gpu_sm_partition ]

  abbrev pub Known : Clients W → Name → Type 0
  Known m j = is_some (part m j) ≡ true

  -- The partitions of the tokens, added up.
  abbrev pub total : Clients W → List (Candidate W) → ℕ
  total m [] = 0
  total m (t ∷ ts) = size_of (part m t.name) + total m ts

  abbrev pub AllKnown : Clients W → List (Candidate W) → Type 0
  AllKnown m [] = Unit
  AllKnown m (t ∷ ts) = Known m t.name × AllKnown m ts

  -- Every partition is a `size_t`.
  abbrev pub AllSized : Clients W → Type 0
  AllSized m = (j : Name) → size_of (part m j) < 2 ^ 64

  -- The two maps give every name the same partition.
  abbrev pub SameParts : Clients W → Clients W → Type 0
  SameParts m m' = (j : Name) → part m' j ≡ part m j

  pub part-insert :
      (m : Clients W) (name : Name) (c c' : ClientInfo W)
      → lookup name m ≡ some c
      → c'.gpu_sm_partition ≡ c.gpu_sm_partition
      → SameParts m (insert name c' m)
  part-insert m name c c' e p j = ground (arith, lookup-insert name j c' m, name_eq_iff name j)

  pub total-SameParts :
      (m m' : Clients W) (ts : List (Candidate W)) → SameParts m m' → total m' ts ≡ total m ts
  total-SameParts m m' [] h = refl
  total-SameParts m m' (t ∷ ts) h = omega (arith, ap size_of (h t.name), total-SameParts m m' ts h)

  pub AllKnown-SameParts :
      (m m' : Clients W) (ts : List (Candidate W)) → SameParts m m' → AllKnown m ts → AllKnown m' ts
  AllKnown-SameParts m m' [] h k = tt
  AllKnown-SameParts m m' (t ∷ ts) h k = (rw (h t.name) k.0, AllKnown-SameParts m m' ts h k.1)

  pub AllSized-SameParts : (m m' : Clients W) → SameParts m m' → AllSized m → AllSized m'
  AllSized-SameParts m m' h k j = rw (h j) (k j)

  pub total-append :
      (m : Clients W) (ts us : List (Candidate W)) → total m (ts ++ us) ≡ total m ts + total m us
  total-append m [] us = omega arith
  total-append m (t ∷ ts) us = omega (arith, total-append m ts us)

  pub AllKnown-append :
      (m : Clients W) (ts us : List (Candidate W))
      → AllKnown m ts
      → AllKnown m us
      → AllKnown m (ts ++ us)
  AllKnown-append m [] us h k = k
  AllKnown-append m (t ∷ ts) us h k = (h.0, AllKnown-append m ts us h.1 k)

  -- A known name has an object in the map.
  pub Known-lookup :
      (m : Clients W) (j : Name)
      → Known m j
      → (c : ClientInfo W) × (lookup j m ≡ some c) × (size_of (part m j) ≡ c.gpu_sm_partition)
  Known-lookup m j k = elim (Option-cases (lookup j m)) [
    | inl e ↦ absurd (ground arith)
    | inr (c, e) ↦ (c, e, ground arith)
  ]

  pub lookup-Known : (m : Clients W) (j : Name) (c : ClientInfo W) → lookup j m ≡ some c → Known m j
  lookup-Known m j c e = ground arith
