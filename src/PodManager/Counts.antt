-- ===== src/PodManager/Counts.antt =====
-- Counting the threads that are in `hook_kernel_launch` of src/pod-manager.cpp.
use native.Mathlib.Decide.{ℕ_discrete}
use fa_st_manager.PodManager.Launches.{
  outside, gate, asleep, passed, waiting, taken, blocked, Phase, set, woken,
}
use fa_st_manager.Common.{
  ℕ, refl, zero, suc, true, false, ◌+◌, ◌≡◌, ◌<◌, ◌≤◌, Bool, ◌≢◌, arith, ◌==◌, if◌then◌else◌, ap,
}

abbrev pub inside : Phase → ℕ
inside outside = 0
inside gate = 1
inside asleep = 1
inside passed = 1
inside (waiting req_id) = 1
inside taken = 1
inside blocked = 1

-- How many of the first `n` threads are in the function.
abbrev pub count : (ℕ → Phase) → ℕ → ℕ
count f zero = 0
count f (suc n) = inside (f n) + count f n

pub inside-woken : (a : Phase) → inside (woken a) ≡ inside a
inside-woken outside = refl
inside-woken gate = refl
inside-woken asleep = refl
inside-woken passed = refl
inside-woken (waiting req_id) = refl
inside-woken taken = refl
inside-woken blocked = refl

pub count-woken : (f : ℕ → Phase) (n : ℕ) → count (λ j. woken (f j)) n ≡ count f n
count-woken f zero = refl
count-woken f (suc n) = omega (arith, inside-woken (f n), count-woken f n)

pub count-ge : (f : ℕ → Phase) (i n : ℕ) → i < n → inside (f i) ≤ count f n
count-ge f i zero h = absurd (omega arith)
count-ge f i (suc n) h = elim (ℕ_discrete i n) [
  | yes e ↦ rw e (omega arith)
  | no e ↦ omega (arith, count-ge f i n (omega arith))
]

pub count-set_beyond :
    (f : ℕ → Phase) (i n : ℕ) (a : Phase) → n ≤ i → count (set i a f) n ≡ count f n
count-set_beyond f i zero a h = refl
count-set_beyond f i (suc n) a h =
    let ne : (i == n) ≡ false = ground arith in
    rw ne (ap (◌+◌ (inside (f n))) (count-set_beyond f i n a (omega arith)))

pub count-set :
    (f : ℕ → Phase) (i n : ℕ) (a : Phase)
    → i < n
    → count (set i a f) n + inside (f i) ≡ count f n + inside a
count-set f i zero a h = absurd (omega arith)
count-set f i (suc n) a h = elim (ℕ_discrete i n) [
  | yes e ↦
      let same : (i == n) ≡ true = ground arith in
      rw same (omega (arith, count-set_beyond f i n a (omega arith), ap (λ j. inside (f j)) e))
  | no e ↦
      let ne : (i == n) ≡ false = ground arith in
      rw ne (omega (arith, count-set f i n a (omega arith)))
]

pub inside-tested : (b : Bool) → inside (if b then passed else asleep) ≡ 1
inside-tested true = refl
inside-tested false = refl

pub inside-le : (a : Phase) → inside a ≤ 1
inside-le outside = omega arith
inside-le gate = omega arith
inside-le asleep = omega arith
inside-le passed = omega arith
inside-le (waiting req_id) = omega arith
inside-le taken = omega arith
inside-le blocked = omega arith

pub count-none : (f : ℕ → Phase) (n : ℕ) → ((j : ℕ) → j < n → f j ≡ outside) → count f n ≡ 0
count-none f zero h = refl
count-none f (suc n) h =
    omega (arith, ap inside (h n (omega arith)), count-none f n (λ j l. h j (omega arith)))

pub count-alone : (f : ℕ → Phase) (i n : ℕ) → ((j : ℕ) → j ≢ i → f j ≡ outside) → count f n ≤ 1
count-alone f i zero alone = omega arith
count-alone f i (suc n) alone = elim (ℕ_discrete n i) [
  | yes e ↦
      let none_below = count-none f n (λ j h. alone j (λ same. absurd (omega (arith, same, e)))) in
      omega (arith, none_below, inside-le (f n))
  | no e ↦ omega (arith, count-alone f i n alone, ap inside (alone n e))
]

-- The threads from `n` on are outside.
abbrev pub Beyond : (ℕ → Phase) → ℕ → Type 0
Beyond f n = (j : ℕ) → n ≤ j → f j ≡ outside

pub count-extend : (f : ℕ → Phase) (n k : ℕ) → Beyond f n → count f (k + n) ≡ count f n
count-extend f n zero b = ap (count f) (omega arith)
count-extend f n (suc k) b =
    let e : suc k + n ≡ suc (k + n) = omega arith in
    rw e (omega (arith, ap inside (b (k + n) (omega arith)), count-extend f n k b))
