-- ===== src/Predictor/Window.antt =====
-- The record keeper against a plain queue that forgets a record only for its age.
use fa_st_manager.Predictor.Ages.{
  Rising, Rising-append, Rising-raise, survivors-drop, Rising-InOrder, Rising-drop,
}
use fa_st_manager.Common.{
  ℕ, List, ◌≡◌, ◌∷◌, ◌++◌, ◌≤◌, [], ◌<◌, ◌∙◌, All, ◌^◌, ◌⊎◌, false, sym, inl, arith, inr, refl,
}
use fa_st_manager.Common.Int.{ℤ, pos}
use fa_st_manager.Double.{Double, IsOrdered, nought}
use fa_st_manager.Predictor.Keeper.{
  Record, Keeper, add, drop_while_outdated, drop_outdated, get_max, clear, front,
}
use fa_st_manager.Predictor.Survivors.{
  survivors, Among, survivors-append, survivors-max, survivors-Among,
}

-- What the callers do with a record keeper; a time point is a clock reading of `t` nanoseconds.
pub data Call {ℓ} (W : Type ℓ) : Type ℓ where
  adds : W → (t : ℕ) → Call W
  drops : (t : ℕ) → Call W
  clears : Call W

abbrev time_of {ℓ} : {W : Type ℓ} → ℕ → Call W → ℕ
time_of last (adds x t) = t
time_of last (drops t) = t
time_of last clears = last

-- The clock never goes back, and stays in the range of an `int64_t`.
abbrev pub Monotone {ℓ} : {W : Type ℓ} → ℕ → List (Call W) → Type 0
Monotone last [] = Unit
Monotone last (c ∷ cs) =
    (last ≤ time_of last c) × (time_of last c < 2 ^ 63) × Monotone (time_of last c) cs

module _ {ℓ} {W : Type ℓ} ⦃d : Double W⦄ where
  unfoldable pub apply : Call W → Keeper W → Keeper W
  unfolding add drop_outdated clear
  apply (adds x t) k = add x (pos t) k
  apply (drops t) k = drop_outdated (pos t) k
  apply clears k = clear k

  -- The plain queue: nothing leaves it but by age.
  unfoldable pub apply_window : ℤ → Call W → List (Record W) → List (Record W)
  unfolding drop_while_outdated
  apply_window valid (adds x t) rs = rs ++ ((pos t, x) ∷ [])
  apply_window valid (drops t) rs = drop_while_outdated valid (pos t) rs
  apply_window valid clears rs = []

  unfoldable pub run : List (Call W) → Keeper W → Keeper W
  unfolding apply
  run [] k = k
  run (c ∷ cs) k = run cs (apply c k)

  unfoldable pub run_window : ℤ → List (Call W) → List (Record W) → List (Record W)
  unfolding apply_window
  run_window valid [] rs = rs
  run_window valid (c ∷ cs) rs = run_window valid cs (apply_window valid c rs)

module _ {ℓ} {W : Type ℓ} ⦃d : Double W⦄ where
  -- The keeper stands for the window: the same bound on the age, and the records that no later
  -- one exceeds.
  record Stands (last : ℕ) (k : Keeper W) (rs : List (Record W)) : Type ℓ where
    kept : k.records ≡ survivors rs
    rising : Rising 0 last rs

  module _ (laws : IsOrdered W) where
    apply-Stands :
        (valid : ℤ) (last : ℕ) (c : Call W) (k : Keeper W) (rs : List (Record W))
        → k.valid_time ≡ valid
        → last ≤ time_of last c
        → time_of last c < 2 ^ 63
        → Stands last k rs
        → Stands (time_of last c) (apply c k) (apply_window valid c rs)
    unfolding apply apply_window
    apply-Stands valid last (adds x t) k rs ev h small s = record {
      kept = rw (s.kept) (sym (survivors-append laws rs (pos t, x)));
      rising = Rising-append 0 last t x rs h s.rising;
    }
    apply-Stands valid last (drops t) k rs ev h small s =
        let up = Rising-raise 0 last t rs h s.rising in
        record {
          kept =
              rw (s.kept, ev)
                (sym (survivors-drop valid (pos t) rs (Rising-InOrder valid 0 t rs small up)));
          rising = Rising-drop valid (pos t) 0 t rs up;
        }
    apply-Stands valid last clears k rs ev h small s = record { kept = refl; rising = omega arith }

    apply-valid_time : (c : Call W) (k : Keeper W) → (apply c k).valid_time ≡ k.valid_time
    unfolding apply
    apply-valid_time (adds x t) k = refl
    apply-valid_time (drops t) k = refl
    apply-valid_time clears k = refl

    run-Stands :
        (valid : ℤ) (last : ℕ) (cs : List (Call W)) (k : Keeper W) (rs : List (Record W))
        → k.valid_time ≡ valid
        → Monotone last cs
        → Stands last k rs
        → (now : ℕ) × Stands now (run cs k) (run_window valid cs rs)
    unfolding run run_window
    run-Stands valid last [] k rs ev m s = (last, s)
    run-Stands valid last (c ∷ cs) k rs ev (h, small, m) s =
        run-Stands valid (time_of last c) cs (apply c k) (apply_window valid c rs)
          (apply-valid_time c k ∙ ev) m (apply-Stands valid last c k rs ev h small s)

    front-cases :
        (rs : List (Record W))
        → ((rs ≡ []) × (front (survivors rs) ≡ nought)) ⊎ Among (front (survivors rs)) rs
    front-cases [] = inl (refl, refl)
    front-cases (r ∷ rs) = inr (survivors-Among r rs)

    -- After any calls on a new record keeper, with a clock that does not go back, `get_max` is not
    -- below the value of any record of the plain queue, and is the value of one of them, or 0 if the
    -- queue is empty.
    pub run-max :
        (valid : ℤ) (cs : List (Call W))
        → Monotone 0 cs
        → let top = get_max (run cs (record { valid_time = valid; records = [] })) in
          let window = run_window valid cs [] in
          All (λ q. d.lt top q.1 ≡ false) window
          × (((window ≡ []) × (top ≡ nought)) ⊎ Among top window)
    unfolding get_max
    run-max valid cs m =
        let (now, s) =
          run-Stands valid 0 cs (record { valid_time = valid; records = [] }) [] refl m
            (record { kept = refl; rising = omega arith }) in
        let window = run_window valid cs [] in
        rw (s.kept) (survivors-max laws window, front-cases window)
