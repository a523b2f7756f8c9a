-- ===== src/Comm/Buffer.antt =====
-- `append_msg_data` and `get_msg_data` of src/comm.h. A buffer is a list of bytes; an access past its
-- end, which C++ leaves undefined, is `none`.
use fa_st_manager.Common.{
  [], ◌∷◌, append-nil, drop-drop, ◌<◌, ℕ, ◌+◌, ◌≤◌, ◌≡◌, List, ◌++◌, Option, none, some, arith, leb,
  le→leb, lt→not-leb, if◌then◌else◌, length, take, drop, length-append, take-append, drop-append,
  drop-append_add, append_assoc, ◌>>=◌, length-drop,
}
use native.Mathlib.Decide.{dec_le}
use fa_st_manager.Comm.Bytes.{le_bytes, of_le, span, length-le_bytes, of_le-le_bytes}

unfoldable pub append_msg_data : List ℕ → ℕ → List ℕ → Option (List ℕ × ℕ)
append_msg_data buf pos bytes =
    let end = pos + length bytes in
    if leb end (length buf) then some (take pos buf ++ (bytes ++ drop end buf), end) else none

unfoldable pub get_msg_data : ℕ → List ℕ → ℕ → Option (ℕ × ℕ)
get_msg_data size buf pos =
    let end = pos + size in
    if leb end (length buf) then some (of_le (take size (drop pos buf)), end) else none

-- Appending at the end of what has been written so far.
pub append_msg_data_fits :
    (out bytes rest : List ℕ)
    → length bytes ≤ length rest
    → append_msg_data (out ++ rest) (length out) bytes
      ≡ some ((out ++ bytes) ++ drop (length bytes) rest, length (out ++ bytes))
unfolding append_msg_data
append_msg_data_fits out bytes rest h =
    let fits : length out + length bytes ≤ length (out ++ rest) =
      omega (arith, length-append out rest) in
    rw (le→leb _ _ fits) (simp (take-append, drop-append_add, append_assoc, length-append))

pub append_msg_data_overflow :
    (out bytes rest : List ℕ)
    → length rest < length bytes
    → append_msg_data (out ++ rest) (length out) bytes ≡ none
unfolding append_msg_data
append_msg_data_overflow out bytes rest h =
    let over : length (out ++ rest) < length out + length bytes =
      omega (arith, length-append out rest) in
    rw (lt→not-leb _ _ over)

-- Reading a field back from where it was written.
pub get_msg_data_at :
    (out bytes rest : List ℕ)
    → get_msg_data (length bytes) (out ++ (bytes ++ rest)) (length out)
      ≡ some (of_le bytes, length out + length bytes)
unfolding get_msg_data
get_msg_data_at out bytes rest =
    let fits : length out + length bytes ≤ length (out ++ (bytes ++ rest)) =
      omega (arith, length-append out (bytes ++ rest), length-append bytes rest) in
    rw (le→leb _ _ fits) (simp (drop-append, take-append))

-- The same for a field of `k` bytes, at a position and in a buffer that are given by equations.
pub get_le :
    (out : List ℕ) (k n : ℕ) (rest : List ℕ) {buf : List ℕ} {pos : ℕ}
    → buf ≡ out ++ (le_bytes k n ++ rest)
    → pos ≡ length out
    → n < span k
    → get_msg_data k buf pos ≡ some (n, pos + k)
get_le out k n rest eb ep h =
    rw (eb, ep)
      (cc (get_msg_data_at out (le_bytes k n) rest, length-le_bytes k n, of_le-le_bytes k n h))

-- Several calls of `append_msg_data` in a row.
unfoldable pub append_fields : List (List ℕ) → List ℕ × ℕ → Option (List ℕ × ℕ)
append_fields [] at = some at
append_fields (f ∷ fs) at = append_msg_data at.0 at.1 f >>= append_fields fs

abbrev pub join : List (List ℕ) → List ℕ
join [] = []
join (f ∷ fs) = f ++ join fs

pub append_fields_fits :
    (fs : List (List ℕ)) (out rest : List ℕ)
    → length (join fs) ≤ length rest
    → append_fields fs (out ++ rest, length out)
      ≡ some ((out ++ join fs) ++ drop (length (join fs)) rest, length (out ++ join fs))
unfolding append_fields
append_fields_fits [] out rest h = simp append-nil
append_fields_fits (f ∷ fs) out rest h =
    rw (append_msg_data_fits out f rest (omega (arith, length-append f (join fs)))) (
      rw
        (append_fields_fits fs (out ++ f) (drop (length f) rest)
          (omega (arith, length-append f (join fs), length-drop (length f) rest)))
        (simp (append_assoc, length-append, drop-drop)))

pub append_fields_overflow :
    (fs : List (List ℕ)) (out rest : List ℕ)
    → length rest < length (join fs)
    → append_fields fs (out ++ rest, length out) ≡ none
unfolding append_fields
append_fields_overflow [] out rest h = absurd (omega arith)
append_fields_overflow (f ∷ fs) out rest h = elim (dec_le (length f) (length rest)) [
  | yes fits ↦ rw (append_msg_data_fits out f rest fits) (
      append_fields_overflow fs (out ++ f) (drop (length f) rest)
        (omega (arith, length-append f (join fs), length-drop (length f) rest)))
  | no over ↦ rw (append_msg_data_overflow out f rest (omega arith))
]
