-- ===== src/PodManager/Startup.antt =====
-- How `main` of src/pod-manager.cpp starts: the environment, the connection to the scheduler, and the
-- port on which the hook libraries connect. `none` is `exit` or undefined behaviour.
use fa_st_manager.Common.{
  ℕ, ◌-◌, ◌%◌, ◌^◌, Option, none, some, Name, ltb, length, if◌then◌else◌, ◌>>=◌, codes, List,
}
use fa_st_manager.Common.Int.{ℤ, pos, negsuc}
use fa_st_manager.Double.{Double}
use fa_st_manager.Comm.Attempt.{Outcome, Attempts, multiple_attempt, is_zero}
use fa_st_manager.PodManager.State.{Pod}
use fa_st_manager.PodManager.Threads.{retrieve_mem_info}

pub record Config : Type 0 where
  pub pod_name : Name
  pub pod_server_port : ℕ
  pub scheduler_ip : Name
  pub scheduler_port : ℕ

-- What `getenv` gives.
pub record Environment : Type 0 where
  pub env_pod_name : Option Name
  pub env_pod_manager_port : Option Name
  pub env_scheduler_ip : Option Name
  pub env_scheduler_port : Option Name

-- An `int` in a `uint16_t`
abbrev pub to_port : ℤ → ℕ
to_port (pos n) = n % 2 ^ 16
to_port (negsuc n) = 2 ^ 16 - 1 - n % 2 ^ 16

-- `strcpy` into an array of the given size
abbrev pub copied : ℕ → Name → Option Name
copied size text = if ltb (length text) size then some text else none

-- The name is printed before it is compared with NULL, so that one has to be given.
abbrev pub configured_name : Option Name → Option Name
configured_name none = none
configured_name (some name) = copied 64 name

abbrev pub configured_ip : Option Name → Option Name
configured_ip none = some (codes "127.0.0.1")
configured_ip (some ip) = copied 20 ip

abbrev pub configured_port : (Name → ℤ) → ℕ → Option Name → ℕ
configured_port atoi default none = default
configured_port atoi default (some port) = to_port (atoi port)

unfoldable pub configure : (Name → ℤ) → Environment → Option Config
configure atoi e = configured_name e.env_pod_name >>= λ name.
    configured_ip e.env_scheduler_ip >>= λ ip. some (record {
      pod_name = name;
      pod_server_port = configured_port atoi 50052 e.env_pod_manager_port;
      scheduler_ip = ip;
      scheduler_port = configured_port atoi 50051 e.env_scheduler_port;
    })

-- `if (rc != 0) exit(rc)`
abbrev pub or_exit : Option Attempts → Option Attempts
or_exit none = none
or_exit (some a) = if is_zero a.result then some a else none

module _ {ℓ} {W : Type ℓ} ⦃d : Double W⦄ where
  -- The outcomes of `connect`, of the exchange of `retrieve_mem_info`, which brings `rbuf`, and of
  -- `bind`.
  unfoldable pub connect_and_bind :
      (ℕ → Outcome) → (ℕ → Outcome) → (ℕ → Outcome) → List ℕ → ℤ → Pod W → Option (Pod W)
  unfolding multiple_attempt retrieve_mem_info
  connect_and_bind connect exchange bind rbuf now p =
      or_exit (multiple_attempt connect 5 10) >>= λ _.
      or_exit (multiple_attempt exchange 5 0) >>= λ _. retrieve_mem_info rbuf p >>= λ q.
      or_exit (multiple_attempt bind 5 10) >>= λ _. some (record q { quota_updated_tp = now })
