-- ===== src/Comm/Bytes.antt =====
-- The bytes of the integers that a message carries, least significant first (the hosts are
-- little-endian; both ends use `memcpy`).
use fa_st_manager.Common.{
  ℕ, zero, suc, ◌+◌, ◌*◌, ◌/◌, ◌%◌, ◌<◌, ◌≡◌, refl, ap, List, [], ◌∷◌, arith, length,
}

unfoldable pub le_bytes : ℕ → ℕ → List ℕ
le_bytes zero n = []
le_bytes (suc k) n = n % 256 ∷ le_bytes k (n / 256)

unfoldable pub of_le : List ℕ → ℕ
of_le [] = 0
of_le (b ∷ bs) = b + 256 * of_le bs

pub length-le_bytes : (k n : ℕ) → length (le_bytes k n) ≡ k
unfolding le_bytes
length-le_bytes zero n = refl
length-le_bytes (suc k) n = ap suc (length-le_bytes k (n / 256))

-- The greatest value of `k` bytes, plus one.
abbrev pub span : ℕ → ℕ
span zero = 1
span (suc k) = 256 * span k

pub of_le-le_bytes : (k n : ℕ) → n < span k → of_le (le_bytes k n) ≡ n
unfolding le_bytes of_le
of_le-le_bytes zero n h = omega arith
of_le-le_bytes (suc k) n h = omega (arith, of_le-le_bytes k (n / 256) (omega arith))
