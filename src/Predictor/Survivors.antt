-- ===== src/Predictor/Survivors.antt =====
-- The records that no later record exceeds: what the deque of a `RecordKeeper` holds.
use mathlib.Core.Path.{subst}
use fa_st_manager.Common.{
  List, ◌≡◌, Bool, ◌∷◌, ◌++◌, All, false, if◌then◌else◌, [], true, Bool-cases, ◌||◌, arith, inl,
  inr, sym, refl,
}
use fa_st_manager.Double.{Double, IsOrdered}
use fa_st_manager.Predictor.Keeper.{Record, pop_smaller, front}

-- `x` is the value of one of the records.
pub data Among {ℓ} {W : Type ℓ} (x : W) : List (Record W) → Type ℓ where
  here : {r : Record W} {rs : List (Record W)} → x ≡ r.1 → Among x (r ∷ rs)
  there : {r : Record W} {rs : List (Record W)} → Among x rs → Among x (r ∷ rs)

module _ {ℓ} {W : Type ℓ} ⦃d : Double W⦄ where
  abbrev pub any_larger : W → List (Record W) → Bool
  any_larger x [] = false
  any_larger x (r ∷ rs) = d.lt x r.1 || any_larger x rs

  -- The records that no later record exceeds.
  abbrev pub survivors : List (Record W) → List (Record W)
  survivors [] = []
  survivors (r ∷ rs) = if any_larger r.1 rs then survivors rs else r ∷ survivors rs

  any_larger-append :
      (x : W) (rs : List (Record W)) (r : Record W)
      → any_larger x (rs ++ (r ∷ [])) ≡ (any_larger x rs || d.lt x r.1)
  any_larger-append x [] r = ground arith
  any_larger-append x (s ∷ rs) r = ground (arith, any_larger-append x rs r)

  module _ (laws : IsOrdered W) where
    -- Past a record that is below `x`, every survivor that it is not below is below `x` too.
    pop_all :
        (y x : W) (rs : List (Record W))
        → any_larger y rs ≡ false
        → d.lt y x ≡ true
        → pop_smaller x (survivors rs) ≡ []
    unfolding pop_smaller
    pop_all y x [] h lt = refl
    pop_all y x (r ∷ rs) h lt = ground (arith, pop_all y x rs, laws.le_trans x r.1 y)

    pub survivors-append :
        (rs : List (Record W)) (r : Record W)
        → survivors (rs ++ (r ∷ [])) ≡ pop_smaller r.1 (survivors rs) ++ (r ∷ [])
    unfolding pop_smaller
    survivors-append [] r = refl
    survivors-append (s ∷ rs) r =
        ground (arith, any_larger-append s.1 rs r, survivors-append rs r, pop_all s.1 r.1 rs)

    bound_of :
        (m : W) (rs : List (Record W)) → any_larger m rs ≡ false → All (λ q. d.lt m q.1 ≡ false) rs
    bound_of m [] h = tt
    bound_of m (r ∷ rs) h = ground (arith, bound_of m rs)

    not_above :
        (m y : W) (rs : List (Record W))
        → any_larger y rs ≡ true
        → All (λ q. d.lt m q.1 ≡ false) rs
        → d.lt m y ≡ false
    not_above m y [] h b = cc
    not_above m y (r ∷ rs) h b = ground (arith, laws.lt_trans m y r.1, not_above m y rs)

    pub survivors-max :
        (rs : List (Record W)) → All (λ q. d.lt (front (survivors rs)) q.1 ≡ false) rs
    survivors-max [] = tt
    survivors-max (r ∷ rs) = elim (Bool-cases (any_larger r.1 rs)) [
      | inl later ↦
          let e : survivors (r ∷ rs) ≡ survivors rs = rw later refl in
          subst (λ l. All (λ q. d.lt (front l) q.1 ≡ false) (r ∷ rs)) (sym e)
            (not_above (front (survivors rs)) r.1 rs later (survivors-max rs), survivors-max rs)
      | inr last ↦
          let e : survivors (r ∷ rs) ≡ r ∷ survivors rs = rw last refl in
          subst (λ l. All (λ q. d.lt (front l) q.1 ≡ false) (r ∷ rs)) (sym e)
            (laws.lt_irrefl r.1, bound_of r.1 rs last)
    ]

  pub survivors-Among :
      (r : Record W) (rs : List (Record W)) → Among (front (survivors (r ∷ rs))) (r ∷ rs)
  survivors-Among r [] = here refl
  survivors-Among r (s ∷ rs) = elim (Bool-cases (any_larger r.1 (s ∷ rs))) [
    | inl later ↦ rw later (there (survivors-Among s rs))
    | inr last ↦ rw last (here refl)
  ]
