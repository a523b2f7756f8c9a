-- ===== src/Hook/Connection.antt =====
-- The connection of src/hook.cpp to the daemon of the Pod, and its handlers of SIGINT and SIGCONT. `none`
-- is `exit` or a write behind an array.
use fa_st_manager.Common.{
  ℕ, zero, suc, ◌+◌, List, [], ◌∷◌, Option, none, some, Name, ◌==◌, ltb, length, is_empty, map,
  if◌then◌else◌, ◌>>=◌, codes,
}
use fa_st_manager.Common.Int.{ℤ, pos, negsuc}
use fa_st_manager.Comm.Attempt.{Outcome, multiple_attempt, is_zero}
use fa_st_manager.PodManager.Startup.{to_port}

-- `pod_manager_ip` and `pod_manager_port`
pub record Endpoint : Type 0 where
  pub pod_manager_ip : Name
  pub pod_manager_port : ℕ

abbrev pub default_endpoint : Endpoint
default_endpoint = record { pod_manager_ip = codes "127.0.0.1"; pod_manager_port = 50052 }

-- `getline`: up to the first line feed.
abbrev pub first_line : Name → Name
first_line [] = []
first_line (c ∷ cs) = let rest = first_line cs in if c == 10 then [] else c ∷ rest

-- `if (line != "") strcpy(pod_manager_ip, ...)`, into 20 bytes.
abbrev pub read_ip : Name → Endpoint → Option Endpoint
read_ip line e =
    if is_empty line
    then some e
    else (if ltb (length line) 20 then some (record e { pod_manager_ip = line }) else none)

abbrev pub read_port : (Name → ℤ) → Option Name → Endpoint → Endpoint
read_port atoi none e = e
read_port atoi (some port) e = record e { pod_manager_port = to_port (atoi port) }

-- From the contents of the file, where it can be opened, and the value of `POD_MANAGER_PORT`.
unfoldable pub configure_connection :
    (Name → ℤ) → Option Name → Option Name → Endpoint → Option Endpoint
configure_connection atoi file port e =
    file >>= λ text. read_ip (first_line text) e >>= λ e'. some (read_port atoi port e')

-- The calls of `configure_connection` in the attempts up to the given number, each with what the file
-- holds then.
abbrev pub configure_times :
    (Name → ℤ) → (ℕ → Option Name) → Option Name → ℕ → Endpoint → Option Endpoint
configure_times atoi files port zero e = some e
configure_times atoi files port (suc n) e =
    configure_times atoi files port n e >>= λ e'. configure_connection atoi (files (n + 1)) port e'

-- What `connect` is called with is made before the first attempt.
unfoldable pub establish_connection :
    (Name → ℤ)
    → (ℕ → Option Name)
    → Option Name
    → (ℕ → Endpoint → Outcome)
    → Endpoint
    → Option Endpoint
unfolding configure_connection multiple_attempt
establish_connection atoi files port connect e =
    let info = e in
    multiple_attempt (λ attempt. connect attempt info) 5 10 >>= λ a.
    configure_times atoi files port a.calls e >>= λ e'. if is_zero a.result then some e' else none

-- `cuMemPrefetchAsync`
pub record Prefetch : Type 0 where
  pub pointer : ℕ
  pub bytes : ℕ
  pub device : ℤ

-- `CU_DEVICE_CPU`
abbrev pub device_cpu : ℤ
device_cpu = negsuc 0

-- The calls that the handlers make, for the entries of `devptrs_mngr`.
unfoldable pub sigint_handler : List (ℕ × ℕ × ℕ) → List Prefetch
sigint_handler xs = map (λ x. record { pointer = x.0; bytes = x.1; device = device_cpu }) xs

unfoldable pub sigcont_handler : List (ℕ × ℕ × ℕ) → List Prefetch
sigcont_handler xs = map (λ x. record { pointer = x.0; bytes = x.1; device = pos x.2 }) xs
