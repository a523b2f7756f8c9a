-- ===== src/Scheduler/Accounting.antt =====
-- Each change of the tokens keeps `g_sm_occupied` in step with the partitions of the tokens that are
-- out, and finds every client that it looks up.
use fa_st_manager.Common.{
  ℕ, ◌+◌, ◌%◌, ◌^◌, ◌<◌, ◌≡◌, refl, Bool, false, List, [], ◌∷◌, some, arith, filter, ◌||◌,
  Bool-cases, not, inl, inr, Name, name_eq, true,
}
use fa_st_manager.Double.{Double}
use fa_st_manager.Scheduler.State.{Candidate, Clients, sub_size}
use fa_st_manager.Scheduler.Tokens.{expire, remove_named, take_min}
use fa_st_manager.Scheduler.Parts.{total, AllKnown, AllSized, Known-lookup, size_of, part, Known}

module _ {ℓ} {W : Type ℓ} ⦃d : Double W⦄ where
  abbrev pub young : W → List (Candidate W) → List (Candidate W)
  young now ts = filter (λ t. not (d.le t.expired_time now)) ts

  abbrev pub any_expired : W → List (Candidate W) → Bool
  any_expired now [] = false
  any_expired now (t ∷ ts) = d.le t.expired_time now || any_expired now ts

module _ {ℓ} {W : Type ℓ} ⦃d : Double W⦄ (m : Clients W) (sized : AllSized m) where
  -- `k` is what other tokens occupy.
  pub expire_lem :
      (now : W) (ts : List (Candidate W)) (g k : ℕ)
      → AllKnown m ts
      → g ≡ (k + total m ts) % 2 ^ 64
      → (g' : ℕ) × (expire m now ts g ≡ some (young now ts, g', any_expired now ts))
        × (g' ≡ (k + total m (young now ts)) % 2 ^ 64)
        × AllKnown m (young now ts)
  unfolding expire
  expire_lem now [] g k h e = (g, refl, e, tt)
  expire_lem now (t ∷ ts) g k h e = elim (Bool-cases (d.le t.expired_time now)) [
    | inl old ↦
        let out : size_of (part m t.name) < 2 ^ 64 = sized t.name in
        let (c, found, size) = Known-lookup m t.name h.0 in
        let (g', run, acc, known) =
          expire_lem now ts (sub_size g c.gpu_sm_partition) k h.1 (omega arith) in
        (g', rw (old, found, run) refl, rw old acc, rw old known)
    | inr fresh ↦
        let (g', run, acc, known) =
          expire_lem now ts g (k + size_of (part m t.name)) h.1 (omega arith) in
        (g', rw (fresh, run) refl, rw fresh (omega arith), rw fresh (h.0, known))
  ]

  pub remove_named_lem :
      (name : Name) (ts : List (Candidate W)) (g k : ℕ)
      → AllKnown m ts
      → g ≡ (k + total m ts) % 2 ^ 64
      → (gone : Bool) × (rest : List (Candidate W)) × (g' : ℕ) × (remove_named m name ts g
          ≡ some (gone, rest, g'))
        × (g' ≡ (k + total m rest) % 2 ^ 64)
        × AllKnown m rest
  unfolding remove_named
  remove_named_lem name [] g k h e = (false, [], g, refl, e, tt)
  remove_named_lem name (t ∷ ts) g k h e = elim (Bool-cases (name_eq t.name name)) [
    | inl hit ↦
        let (c, found, size) = Known-lookup m t.name h.0 in
        let out : size_of (part m t.name) < 2 ^ 64 = sized t.name in
        (true, ts, sub_size g c.gpu_sm_partition, rw (hit, found) refl, omega arith, h.1)
    | inr miss ↦
        let (gone, rest, g', run, acc, known) =
          remove_named_lem name ts g (k + size_of (part m t.name)) h.1 (omega arith) in
        (gone, t ∷ rest, g', rw (miss, run) refl, omega arith, (h.0, known))
  ]

  pub take_min_lem :
      (t : Candidate W) (ts : List (Candidate W))
      → Known m t.name
      → AllKnown m ts
      → let (best, rest) = take_min t ts in
        (size_of (part m best.name) + total m rest ≡ total m (t ∷ ts))
        × Known m best.name
        × AllKnown m rest
  unfolding take_min
  take_min_lem t [] h k = (refl, h, tt)
  take_min_lem t (u ∷ us) h k =
      let ih = take_min_lem u us k.0 k.1 in
      let pair = take_min u us in
      elim (Bool-cases (d.lt pair.0.expired_time t.expired_time)) [
        | inl below ↦ rw below (omega (arith, ih.0), ih.1, (h, ih.2))
        | inr other ↦ rw other (refl, h, k)
      ]
