-- ===== src/Predictor/Ages.antt =====
-- Records in the order of their times: the outdated ones stand in front.
use fa_st_manager.Common.{
  ℕ, List, ◌≤◌, ◌∷◌, All, ◌≡◌, ◌<◌, arith, ◌++◌, false, ◌^◌, [], Bool-cases, ◌-◌, inl, ◌/◌, inr,
  ◌+◌, refl,
}
use fa_st_manager.Common.Int.{ℤ, pos, wrap64, sub_ℕ, ltb_ℤ}
use fa_st_manager.Double.{Double}
use fa_st_manager.Predictor.Keeper.{Record, is_outdated, drop_while_outdated}
use fa_st_manager.Predictor.Survivors.{survivors}

-- The order of the ages: once a record is young enough, so are all behind it.
abbrev pub InOrder {ℓ} : {W : Type ℓ} → ℤ → ℤ → List (Record W) → Type 0
InOrder valid tp [] = Unit
InOrder valid tp (r ∷ rs) =
    (is_outdated valid tp r.0 ≡ false → All (λ q. is_outdated valid tp q.0 ≡ false) rs)
    × InOrder valid tp rs

module _ {ℓ} {W : Type ℓ} ⦃d : Double W⦄ (valid tp : ℤ) where
  drop_while_young :
      (rs : List (Record W))
      → All (λ q. is_outdated valid tp q.0 ≡ false) rs
      → drop_while_outdated valid tp (survivors rs) ≡ survivors rs
  unfolding drop_while_outdated
  drop_while_young [] h = refl
  drop_while_young (r ∷ rs) h = ground (arith, drop_while_young rs h.1)

  pub survivors-drop :
      (rs : List (Record W))
      → InOrder valid tp rs
      → survivors (drop_while_outdated valid tp rs) ≡ drop_while_outdated valid tp (survivors rs)
  unfolding drop_while_outdated
  survivors-drop [] h = refl
  survivors-drop (r ∷ rs) h = ground (arith, survivors-drop rs h.1, drop_while_young rs)

-- Clock readings that rise along the list, from `lo` up to `hi`.
abbrev pub Rising {ℓ} : {W : Type ℓ} → ℕ → ℕ → List (Record W) → Type 0
Rising lo hi [] = lo ≤ hi
Rising lo hi (r ∷ rs) = (t : ℕ) × (r.0 ≡ pos t) × (lo ≤ t) × Rising t hi rs

-- Between clock readings the subtraction does not wrap.
pub is_outdated_lem :
    (valid : ℤ) (now t : ℕ)
    → t ≤ now
    → now < 2 ^ 63
    → is_outdated valid (pos now) (pos t) ≡ ltb_ℤ valid (pos ((now - t) / 1_000_000))
unfolding is_outdated
is_outdated_lem valid now t h small =
    let e : sub_ℕ (now + 0) (0 + t) ≡ pos (now - t) = ground arith in
    let f : wrap64 (pos (now - t)) ≡ pos (now - t) = ground arith in rw (e, f) refl

young_mono :
    (valid : ℤ) (now t u : ℕ)
    → t ≤ u
    → u ≤ now
    → now < 2 ^ 63
    → is_outdated valid (pos now) (pos t) ≡ false
    → is_outdated valid (pos now) (pos u) ≡ false
young_mono valid now t u h k small young =
    ground (arith, is_outdated_lem valid now t, is_outdated_lem valid now u)

module _ {ℓ} {W : Type ℓ} where
  Rising-le : (lo hi : ℕ) (rs : List (Record W)) → Rising lo hi rs → lo ≤ hi
  Rising-le lo hi [] h = h
  Rising-le lo hi (r ∷ rs) (t, e, l, h) = omega (arith, Rising-le t hi rs h)

  Rising-weaken :
      (lo lo' hi : ℕ) (rs : List (Record W)) → lo' ≤ lo → Rising lo hi rs → Rising lo' hi rs
  Rising-weaken lo lo' hi [] k h = omega arith
  Rising-weaken lo lo' hi (r ∷ rs) k (t, e, l, h) = (t, e, omega arith, h)

  pub Rising-append :
      (lo hi u : ℕ) (x : W) (rs : List (Record W))
      → hi ≤ u
      → Rising lo hi rs
      → Rising lo u (rs ++ ((pos u, x) ∷ []))
  Rising-append lo hi u x [] k h = (u, refl, omega arith, omega arith)
  Rising-append lo hi u x (r ∷ rs) k (t, e, l, h) = (t, e, l, Rising-append t hi u x rs k h)

  pub Rising-raise :
      (lo hi u : ℕ) (rs : List (Record W)) → hi ≤ u → Rising lo hi rs → Rising lo u rs
  Rising-raise lo hi u [] k h = omega arith
  Rising-raise lo hi u (r ∷ rs) k (t, e, l, h) = (t, e, l, Rising-raise t hi u rs k h)

  Rising-young :
      (valid : ℤ) (lo now : ℕ) (rs : List (Record W))
      → now < 2 ^ 63
      → is_outdated valid (pos now) (pos lo) ≡ false
      → Rising lo now rs
      → All (λ q. is_outdated valid (pos now) q.0 ≡ false) rs
  Rising-young valid lo now [] small y h = tt
  Rising-young valid lo now (r ∷ rs) small y (t, e, l, h) =
      let y' = young_mono valid now lo t l (Rising-le t now rs h) small y in
      (rw e y', Rising-young valid t now rs small y' h)

  pub Rising-InOrder :
      (valid : ℤ) (lo now : ℕ) (rs : List (Record W))
      → now < 2 ^ 63
      → Rising lo now rs
      → InOrder valid (pos now) rs
  Rising-InOrder valid lo now [] small h = tt
  Rising-InOrder valid lo now (r ∷ rs) small (t, e, l, h) =
      (λ y. Rising-young valid t now rs small (rw e at y) h, Rising-InOrder valid t now rs small h)

module _ {ℓ} {W : Type ℓ} ⦃d : Double W⦄ where
  pub Rising-drop :
      (valid tp : ℤ) (lo hi : ℕ) (rs : List (Record W))
      → Rising lo hi rs
      → Rising lo hi (drop_while_outdated valid tp rs)
  unfolding drop_while_outdated
  Rising-drop valid tp lo hi [] h = h
  Rising-drop valid tp lo hi (r ∷ rs) (t, e, l, h) = elim (Bool-cases (is_outdated valid tp r.0)) [
    | inl old ↦ rw old (Rising-weaken t lo hi _ l (Rising-drop valid tp t hi rs h))
    | inr young ↦ rw young (t, e, l, h)
  ]
