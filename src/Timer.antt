-- ===== src/Timer.antt =====
-- `struct timespec` and the conversions of doubles with which src/scheduler.cpp, src/hook.cpp and
-- docker/kubeshare-gemini-scheduler/hook.cpp compute the time at which a wait ends.
use fa_st_manager.Common.{ℕ, suc, ◌+◌, ◌*◌, ◌/◌, ◌%◌, ◌^◌, ◌<◌, ◌≡◌, true, arith}
use fa_st_manager.Common.Int.{ℤ, pos, negsuc, sub_ℕ, div_ℤ, ◌+ℤ◌, ◌≤ℤ◌}
use fa_st_manager.Double.{Double, Thousandths, thousandths}

-- `struct timespec`
pub record Timespec : Type 0 where
  pub tv_sec : ℤ
  pub tv_nsec : ℤ

abbrev pub giga : ℕ
giga = 1_000_000_000

-- `%` by a positive number, with the sign of the dividend.
abbrev pub rem_ℤ : ℤ → ℕ → ℤ
rem_ℤ (pos n) d = pos (n % d)
rem_ℤ (negsuc n) d = sub_ℕ 0 (suc n % d)

-- `ts.tv_sec += ts.tv_nsec / 1000000000; ts.tv_nsec %= 1000000000;`
unfoldable pub carried : ℤ → ℤ → Timespec
unfolding ◌+ℤ◌
carried sec nsec = record { tv_sec = sec +ℤ div_ℤ nsec giga; tv_nsec = rem_ℤ nsec giga }

-- `floor`, and the conversion to `long` of a value that fits.
pub record Rounding {ℓ} (W : Type ℓ) : Type ℓ where
  pub floor : W → W
  pub to_long : W → ℤ

-- IEEE 754 arithmetic on numbers, not NaN, is monotone and exact on integers below 2 ^ 53; the conversion
-- to `long` keeps integral bounds, since it drops the fraction.
pub record IsRounding {ℓ} (W : Type ℓ) ⦃d : Double W⦄ (r : Rounding W) : Type ℓ where
  pub plus_mono :
      (n : ℕ) (x y : W)
      → d.le x y ≡ true
      → d.le (d.plus (d.from_int (pos n)) x) (d.plus (d.from_int (pos n)) y) ≡ true
  pub plus_exact :
      (a b : ℕ)
      → a + b < 2 ^ 53
      → d.plus (d.from_int (pos a)) (d.from_int (pos b)) ≡ d.from_int (pos (a + b))
  pub to_long_between :
      (a b : ℕ) (x : W)
      → a < 2 ^ 53
      → b < 2 ^ 53
      → d.le (d.from_int (pos a)) x ≡ true
      → d.le x (d.from_int (pos b)) ≡ true
      → (pos a ≤ℤ r.to_long x) × (r.to_long x ≤ℤ pos b)
  pub to_long_exact : (a : ℕ) → a < 2 ^ 53 → r.to_long (d.from_int (pos a)) ≡ pos a

-- Thousandths round down as integers do.
abbrev pub rounding : Rounding Thousandths
rounding = record {
  floor =
      λ a. elim a [ pos n ↦ pos (n / 1000 * 1000) | negsuc n ↦ sub_ℕ 0 ((n / 1000 + 1) * 1000) ];
  to_long = λ a. div_ℤ a 1000;
}

plus_keeps :
    (n : ℕ) (x y : ℤ)
    → thousandths.le x y ≡ true
    → thousandths.le (pos (n * 1000) +ℤ x) (pos (n * 1000) +ℤ y) ≡ true
unfolding ◌+ℤ◌
plus_keeps n x y h = ground arith

long_between :
    (a b : ℕ) (x : ℤ)
    → thousandths.le (pos (a * 1000)) x ≡ true
    → thousandths.le x (pos (b * 1000)) ≡ true
    → (pos a ≤ℤ div_ℤ x 1000) × (div_ℤ x 1000 ≤ℤ pos b)
long_between a b (pos m) h k = ground arith
long_between a b (negsuc m) h k = ground arith

exact_sum : (a b : ℕ) → pos (a * 1000) +ℤ pos (b * 1000) ≡ pos ((a + b) * 1000)
unfolding ◌+ℤ◌
exact_sum a b = ground arith

exact_long : (a : ℕ) → div_ℤ (pos (a * 1000)) 1000 ≡ pos a
exact_long a = ground arith

pub Thousandths-IsRounding : IsRounding Thousandths rounding
Thousandths-IsRounding = record {
  plus_mono = plus_keeps;
  plus_exact = λ a b h. exact_sum a b;
  to_long_between = λ a b x h k. long_between a b x;
  to_long_exact = λ a h. exact_long a;
}
