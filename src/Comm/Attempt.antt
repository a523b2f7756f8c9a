-- ===== src/Comm/Attempt.antt =====
-- `multiple_attempt` of src/comm.cpp. The function that is attempted is given by its outcomes: the value
-- that attempt number `k` returns, and `errno` after it.
use native.Mathlib.Decide.{ℕ_discrete}
use fa_st_manager.Common.{
  ℕ, zero, suc, ◌+◌, ◌*◌, ◌-◌, ◌≤◌, ◌<◌, ◌≡◌, Bool, true, false, Option, none, some, arith,
  if◌then◌else◌, ◌==◌,
}
use fa_st_manager.Common.Int.{ℤ, pos, negsuc}

pub record Outcome : Type 0 where
  pub rc : ℤ
  pub errno : ℤ

-- What the call returns, how often it called the function, and the seconds that it slept.
pub record Attempts : Type 0 where
  pub result : ℤ
  pub calls : ℕ
  pub slept : ℕ

abbrev pub is_zero : ℤ → Bool
is_zero (pos zero) = true
is_zero (pos (suc n)) = false
is_zero (negsuc n) = false

-- `if (rc == -1) rc = errno`
abbrev pub error_of : Outcome → ℤ
error_of o = elim o.rc [ pos n ↦ pos n | negsuc n ↦ if n == 0 then o.errno else negsuc n ]

-- The loop, with the rounds that are left and the attempts that were made.
attempt_loop : (ℕ → Outcome) → ℕ → ℕ → ℕ → ℕ → ℤ → Attempts
attempt_loop func interval zero made slept rc = record { result = rc; calls = made; slept = slept }
attempt_loop func interval (suc left) made slept rc =
    let o = func (made + 1) in
    let again = attempt_loop func interval left (made + 1) (slept + interval) (error_of o) in
    if is_zero o.rc then record { result = pos 0; calls = made + 1; slept = slept } else again

-- `none` is the uninitialised result of a call that allows no attempt.
unfoldable pub multiple_attempt : (ℕ → Outcome) → ℕ → ℕ → Option Attempts
unfolding attempt_loop
multiple_attempt func max_attempt interval =
    if max_attempt == 0 then none else some (attempt_loop func interval max_attempt 0 0 (pos 0))

attempt_loop_first :
    (func : ℕ → Outcome) (interval left made slept : ℕ) (rc : ℤ) (n : ℕ)
    → made < n
    → n ≤ made + left
    → is_zero (func n).rc ≡ true
    → ((j : ℕ) → made < j → j < n → is_zero (func j).rc ≡ false)
    → attempt_loop func interval left made slept rc
      ≡ record { result = pos 0; calls = n; slept = slept + interval * (n - (made + 1)) }
unfolding attempt_loop
attempt_loop_first func interval zero made slept rc n lo hi ok bad = absurd (omega arith)
attempt_loop_first func interval (suc left) made slept rc n lo hi ok bad =
    elim (ℕ_discrete (made + 1) n) [
      | yes e ↦
          let now : is_zero (func (made + 1)).rc ≡ true = rw e ok in
          let base : n - (made + 1) ≡ 0 = omega arith in rw (now, base) (ground arith)
      | no ne ↦
          let rest =
            attempt_loop_first func interval left (made + 1) (slept + interval)
              (error_of (func (made + 1))) n (omega arith) (omega arith) ok
              (λ j a b. bad j (omega arith) b) in
          let e : n - (made + 1) ≡ suc (n - (made + 1 + 1)) = omega arith in
          rw (bad (made + 1) (omega arith) (omega arith), rest, e) (ground arith)
    ]

attempt_loop_none :
    (func : ℕ → Outcome) (interval left made slept : ℕ) (rc : ℤ) (n : ℕ)
    → n ≡ made + suc left
    → ((j : ℕ) → made < j → j ≤ n → is_zero (func j).rc ≡ false)
    → attempt_loop func interval (suc left) made slept rc
      ≡ record { result = error_of (func n); calls = n; slept = slept + interval * suc left }
unfolding attempt_loop
attempt_loop_none func interval zero made slept rc n e bad =
    let e' : made + 1 ≡ n = omega arith in
    rw (bad (made + 1) (omega arith) (omega arith)) (rw e' (ground arith))
attempt_loop_none func interval (suc left) made slept rc n e bad =
    rw (bad (made + 1) (omega arith) (omega arith)) (
      rw
        (attempt_loop_none func interval left (made + 1) (slept + interval)
          (error_of (func (made + 1))) n (omega arith) (λ j a b. bad j (omega arith) b))
        (ground arith))

-- If attempt number `n` is the first that returns 0 and at most `max_attempt` are allowed, the call
-- returns 0 after `n` calls, and has slept once for each attempt before.
pub multiple_attempt_first :
    (func : ℕ → Outcome) (max_attempt interval n : ℕ)
    → 0 < n
    → n ≤ max_attempt
    → is_zero (func n).rc ≡ true
    → ((j : ℕ) → 0 < j → j < n → is_zero (func j).rc ≡ false)
    → multiple_attempt func max_attempt interval
      ≡ some (record { result = pos 0; calls = n; slept = interval * (n - 1) })
unfolding multiple_attempt
multiple_attempt_first func max_attempt interval n lo hi ok bad =
    ground
      (arith, attempt_loop_first func interval max_attempt 0 0 (pos 0) n lo (omega arith) ok bad)

-- If every allowed attempt fails, the function is called `max_attempt` times, each time with a sleep
-- after it, and the result is the error of the last attempt: `errno` where it returned -1.
pub multiple_attempt_none :
    (func : ℕ → Outcome) (max_attempt interval : ℕ)
    → 0 < max_attempt
    → ((j : ℕ) → 0 < j → j ≤ max_attempt → is_zero (func j).rc ≡ false)
    → multiple_attempt func max_attempt interval
      ≡ some (record {
        result = error_of (func max_attempt);
        calls = max_attempt;
        slept = interval * max_attempt;
      })
unfolding multiple_attempt
multiple_attempt_none func zero interval h bad = absurd (omega arith)
multiple_attempt_none func (suc m) interval h bad =
    ground (arith, attempt_loop_none func interval m 0 0 (pos 0) (suc m) (omega arith) bad)
