-- ===== src/Hook/Endpoints.antt =====
-- To which address src/hook.cpp connects.
use fa_st_manager.Common.{
  ℕ, ◌<◌, ◌≤◌, ◌≡◌, refl, ap, ◌∙◌, Option, none, some, false, Name, arith, ◌>>=◌, if◌then◌else◌,
}
use fa_st_manager.Common.Int.{ℤ}
use fa_st_manager.Comm.Attempt.{Attempts, Outcome, multiple_attempt_none, is_zero, error_of}
use fa_st_manager.Hook.Connection.{Endpoint, configure_times, establish_connection}

discarded : (o : Option Endpoint) → (o >>= λ e. if false then some e else none) ≡ none
discarded none = refl
discarded (some e) = refl

-- What `establish_connection` does with the outcome of its attempts.
abbrev finished :
    (Name → ℤ) → (ℕ → Option Name) → Option Name → Endpoint → Option Attempts → Option Endpoint
finished atoi files port e o = o >>= λ a.
    configure_times atoi files port a.calls e >>= λ e'. if is_zero a.result then some e' else none

-- If no attempt reaches the address from before the first attempt, and the last one leaves an error, the
-- process ends, whatever address the file gives meanwhile and whoever answers there.
old_address_fails :
    (atoi : Name → ℤ) (files : ℕ → Option Name) (port : Option Name)
    (connect : ℕ → Endpoint → Outcome) (e : Endpoint)
    → ((j : ℕ) → 0 < j → j ≤ 5 → is_zero (connect j e).rc ≡ false)
    → is_zero (error_of (connect 5 e)) ≡ false
    → establish_connection atoi files port connect e ≡ none
unfolding establish_connection
old_address_fails atoi files port connect e bad left =
    ap (finished atoi files port e)
      (multiple_attempt_none (λ j. connect j e) 5 10 (omega arith) bad)
    ∙ rw left (discarded (configure_times atoi files port 5 e))
