-- ===== src/Scheduler/State.antt =====
-- The global state of src/scheduler.cpp, and the candidates of src/scheduler.h.
use fa_st_manager.Common.{ℕ, ◌+◌, ◌-◌, ◌%◌, ◌^◌, List, Name}
use fa_st_manager.Scheduler.Client.{History, ClientInfo}

pub record Candidate {ℓ} (W : Type ℓ) : Type ℓ where
  pub socket : ℕ
  pub name : Name
  pub req_id : ℕ
  pub arrived_time : W
  pub expired_time : W

-- An element of the list `candidates`. The number stands for the iterator to it, which stays good
-- while other elements come and go.
pub record Node {ℓ} (W : Type ℓ) : Type ℓ where
  pub node : ℕ
  pub candidate : Candidate W

pub record ValidCandidate {ℓ} (W : Type ℓ) : Type ℓ where
  pub missing : W
  pub remaining : W
  pub usage : W
  pub arrived_time : W
  pub iter : Node W

abbrev pub Clients {ℓ} : Type ℓ → Type ℓ
Clients W = List (Name × ClientInfo W)

-- `outbox` lists the messages that were given to `send`, with their sockets, the newest first.
pub record Scheduler {ℓ} (W : Type ℓ) : Type ℓ where
  pub quota : W
  pub min_quota : W
  pub window_size : W
  pub history_list : List (History W)
  pub client_info_map : Clients W
  pub candidates : List (Node W)
  pub next_node : ℕ
  pub token_takers : List (Candidate W)
  pub g_sm_occupied : ℕ
  pub outbox : List (ℕ × List ℕ)

abbrev pub sm_global_limit : ℕ
sm_global_limit = 100

-- `size_t` arithmetic
abbrev pub add_size : ℕ → ℕ → ℕ
add_size a b = (a + b) % 2 ^ 64

abbrev pub sub_size : ℕ → ℕ → ℕ
sub_size a b = (a + 2 ^ 64 - b) % 2 ^ 64
