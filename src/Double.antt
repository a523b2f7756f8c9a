-- ===== src/Double.antt =====
-- The C++ type `double`, as the code uses it.
use fa_st_manager.Common.{
  ℕ, ◌+◌, ◌*◌, ◌^◌, ◌≡◌, refl, Bool, true, false, not, arith, if◌then◌else◌, ltb, ◌-◌,
}
use fa_st_manager.Common.Int.{ℤ, pos, negsuc, pos_part, neg_part, ◌+ℤ◌, ◌-ℤ◌, ◌*ℤ◌, ltb_ℤ, div_ℤ}

-- The operations and constants that the sources apply to doubles. Each is left to the hardware.
pub record Double {ℓ} (W : Type ℓ) : Type ℓ where
  pub plus : W → W → W
  pub minus : W → W → W
  pub times : W → W → W
  pub divided : W → W → W
  pub lt : W → W → Bool
  pub le : W → W → Bool
  pub from_us : ℤ → W  -- a count of microseconds divided by 1e3
  pub from_int : ℤ → W  -- an integral constant, such as 0.0 or 2000
  pub half : W  -- 0.5
  pub tiny : W  -- 1e-9
  pub greatest : W  -- `std::numeric_limits<double>::max()`
  pub of_bits : ℕ → W  -- the 8 bytes of a message, read as a double
  pub to_bits : W → ℕ

module _ {ℓ} {W : Type ℓ} ⦃d : Double W⦄ where
  -- `std::max` and `std::min`
  abbrev pub fmax : W → W → W
  fmax a b = if d.lt a b then b else a

  abbrev pub fmin : W → W → W
  fmin a b = if d.lt b a then b else a

  abbrev pub nought : W
  nought = d.from_int (pos 0)

-- The comparisons of doubles other than NaN: a strict weak order, as IEEE 754 has it.
pub record IsOrdered {ℓ} (W : Type ℓ) ⦃d : Double W⦄ : Type ℓ where
  pub lt_irrefl : (x : W) → d.lt x x ≡ false
  pub lt_trans : (x y z : W) → d.lt x y ≡ true → d.lt y z ≡ true → d.lt x z ≡ true
  pub le_trans : (x y z : W) → d.lt y x ≡ false → d.lt z y ≡ false → d.lt z x ≡ false
  pub le-eq-not-lt : (x y : W) → d.le x y ≡ not (d.lt y x)

-- Thousandths, as integers: a value of the interface for tests, and one that meets the laws.
abbrev pub Thousandths : Type 0
Thousandths = ℤ

abbrev pub scale : ℤ → ℕ → ℤ
scale (pos n) k = pos (n * k)
scale (negsuc n) k = pos 0 -ℤ pos ((n + 1) * k)

-- Two's complement
abbrev pub bits_of : ℤ → ℕ
bits_of (pos n) = n
bits_of (negsuc n) = 2 ^ 64 - 1 - n

abbrev pub of_sign_bits : ℕ → ℤ
of_sign_bits n = if ltb n (2 ^ 63) then pos n else negsuc (2 ^ 64 - 1 - n)

instance abbrev pub thousandths : Double Thousandths
thousandths = record {
  plus = ◌+ℤ◌;
  minus = ◌-ℤ◌;
  times = λ a b. div_ℤ (a *ℤ b) 1000;
  divided = λ a b. div_ℤ (scale a 1000) (pos_part b + neg_part b);
  lt = ltb_ℤ;
  le = λ a b. not (ltb_ℤ b a);
  from_us = λ a. a;
  from_int = λ a. scale a 1000;
  half = pos 500;
  tiny = pos 1;
  greatest = pos (2 ^ 63);
  of_bits = of_sign_bits;
  to_bits = bits_of;
}

pub Thousandths-IsOrdered : IsOrdered Thousandths
Thousandths-IsOrdered = record {
  lt_irrefl = λ x. ground arith;
  lt_trans = λ x y z p q. ground arith;
  le_trans = λ x y z p q. ground arith;
  le-eq-not-lt = λ x y. refl;
}
