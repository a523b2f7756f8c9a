-- ===== src/Older/Connection.antt =====
-- The connection of docker/kubeshare-gemini-scheduler/hook.cpp to the daemon of the Pod, and the start of
-- its debug mode. `Endpoint` and `none` are as in Hook/Connection.
use fa_st_manager.Common.{
  ℕ, zero, suc, ◌+◌, ◌≡◌, refl, [], ◌∷◌, Option, none, some, Bool, false, Name, ◌==◌, ltb, length,
  if◌then◌else◌, ◌>>=◌,
}
use fa_st_manager.Common.Int.{ℤ}
use fa_st_manager.Comm.Attempt.{Outcome, multiple_attempt, is_zero}
use fa_st_manager.Hook.Connection as HookConnection
use fa_st_manager.Hook.Connection.{Endpoint, first_line, read_port}

-- `envHookDebug && envHookDebug[0] == '1'`; a `char *` holds at least its NUL.
unfoldable pub debug_mode_of : Option Name → Bool
debug_mode_of none = false
debug_mode_of (some []) = false
debug_mode_of (some (c ∷ cs)) = c == 49

-- The first line of the file, unless it is empty, goes into an array of 20 bytes.
abbrev pub ip_of_line : Name → Endpoint → Option Endpoint
ip_of_line [] e = some e
ip_of_line (c ∷ cs) e =
    if ltb (length (c ∷ cs)) 20 then some (record e { pod_manager_ip = c ∷ cs }) else none

unfoldable pub configure_connection :
    (Name → ℤ) → Option Name → Option Name → Endpoint → Option Endpoint
configure_connection atoi none port e = none
configure_connection atoi (some text) port e =
    ip_of_line (first_line text) e >>= λ e'. some (read_port atoi port e')

-- `attempt_connection`, as far as the globals go: the configuration before each call of `connect`.
abbrev pub attempt_connections :
    (Name → ℤ) → (ℕ → Option Name) → Option Name → ℕ → Endpoint → Option Endpoint
attempt_connections atoi files port zero e = some e
attempt_connections atoi files port (suc n) e = attempt_connections atoi files port n e >>= λ e'.
    configure_connection atoi (files (n + 1)) port e'

-- `info` is filled in before the first attempt.
unfoldable pub establish_connection :
    (Name → ℤ)
    → (ℕ → Option Name)
    → Option Name
    → (ℕ → Endpoint → Outcome)
    → Endpoint
    → Option Endpoint
unfolding configure_connection multiple_attempt
establish_connection atoi files port connect e =
    multiple_attempt (λ attempt. connect attempt e) 5 10 >>= λ a.
    attempt_connections atoi files port a.calls e >>= λ e'.
    if is_zero a.result then some e' else none

configure-agrees :
    (atoi : Name → ℤ) (file port : Option Name) (e : Endpoint)
    → configure_connection atoi file port e ≡ HookConnection.configure_connection atoi file port e
unfolding configure_connection HookConnection.configure_connection
configure-agrees atoi none port e = refl
configure-agrees atoi (some text) port e =
    elim (first_line text)
      as (λ line.
        (ip_of_line line e >>= λ e'. some (read_port atoi port e'))
        ≡ (HookConnection.read_ip line e >>= λ e'. some (read_port atoi port e'))) [
          | [] ↦ refl
          | c ∷ cs ↦ refl
        ]
