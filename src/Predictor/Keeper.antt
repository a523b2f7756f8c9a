-- ===== src/Predictor/Keeper.antt =====
-- `RecordKeeper`: the records of the last `VALID_TIME` milliseconds, kept so that the front is the
-- greatest. A time point is its count of nanoseconds, an `int64_t`.
use fa_st_manager.Common.{List, [], ◌∷◌, ◌++◌, if◌then◌else◌, Bool}
use fa_st_manager.Common.Int.{ℤ, wrap64, div_ℤ, ltb_ℤ, ◌-ℤ◌}
use fa_st_manager.Double.{Double, nought}

abbrev pub Record {ℓ} : Type ℓ → Type ℓ
Record W = ℤ × W

-- The front of the deque is the head of the list.
pub record Keeper {ℓ} (W : Type ℓ) : Type ℓ where
  pub valid_time : ℤ
  pub records : List (Record W)

-- `duration_cast<milliseconds>(tp - front).count() > VALID_TIME`
unfoldable pub is_outdated : ℤ → ℤ → ℤ → Bool
unfolding ◌-ℤ◌
is_outdated valid tp t = ltb_ℤ valid (div_ℤ (wrap64 (tp -ℤ t)) 1_000_000)

module _ {ℓ} {W : Type ℓ} ⦃d : Double W⦄ where
  -- `while (!records_.empty() && records_.back().second < data) records_.pop_back()`
  unfoldable pub pop_smaller : W → List (Record W) → List (Record W)
  pop_smaller x [] = []
  pop_smaller x (r ∷ rs) = elim (pop_smaller x rs) [
    | [] ↦ if d.lt r.1 x then [] else r ∷ []
    | s ∷ ss ↦ r ∷ s ∷ ss
  ]

  unfoldable pub add : W → ℤ → Keeper W → Keeper W
  unfolding pop_smaller
  add x tp k = record k { records = pop_smaller x k.records ++ ((tp, x) ∷ []) }

  unfoldable pub drop_while_outdated : ℤ → ℤ → List (Record W) → List (Record W)
  drop_while_outdated valid tp [] = []
  drop_while_outdated valid tp (r ∷ rs) =
      if is_outdated valid tp r.0 then drop_while_outdated valid tp rs else r ∷ rs

  unfoldable pub drop_outdated : ℤ → Keeper W → Keeper W
  unfolding drop_while_outdated
  drop_outdated tp k = record k { records = drop_while_outdated k.valid_time tp k.records }

  -- The value in front, or 0.0.
  abbrev pub front : List (Record W) → W
  front [] = nought
  front (r ∷ rs) = r.1

  unfoldable pub get_max : Keeper W → W
  get_max k = front k.records

  unfoldable pub clear : Keeper W → Keeper W
  clear k = record k { records = [] }
