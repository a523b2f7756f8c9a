-- ===== src/Scheduler/Service.antt =====
-- The other threads of src/scheduler.cpp: `pod_client_func`, which serves one connection, and
-- `monitor_file`, which watches the configuration file.
use fa_st_manager.Common.{
  ℕ, List, [], ◌∷◌, ◌++◌, Option, some, Name, Bool, ◌==◌, name_eq, not, ◌&&◌, length, drop,
  replicate, if◌then◌else◌, ◌>>=◌,
}
use fa_st_manager.Double.{Double}
use fa_st_manager.Comm.Message.{req_msg_len}
use fa_st_manager.Scheduler.Config.{Row, read_resource_config}
use fa_st_manager.Scheduler.Message.{handle_message}
use fa_st_manager.Scheduler.State.{Scheduler}

-- What one `recv` brings, and the clock readings while it is handled.
pub record Received {ℓ} (W : Type ℓ) : Type ℓ where
  pub bytes : List ℕ
  pub now : W
  pub later : W

-- One `struct inotify_event`, and what the configuration file holds when it is handled.
pub record FileEvent {ℓ} (W : Type ℓ) : Type ℓ where
  pub len : ℕ
  pub in_close_write : Bool
  pub name : Name
  pub contents : List (Row W)

module _ {ℓ} {W : Type ℓ} ⦃d : Double W⦄ where
  -- The loop of `pod_client_func`: what is received overwrites the front of the buffer, which is not
  -- cleared between two messages.
  unfoldable pub serve : ℕ → List ℕ → List (Received W) → Scheduler W → Option (Scheduler W)
  serve pod_sockfd rbuf [] s = some s
  serve pod_sockfd rbuf (r ∷ rs) s =
      let buf = r.bytes ++ drop (length r.bytes) rbuf in
      handle_message pod_sockfd buf r.now r.later s >>= λ s'. serve pod_sockfd buf rs s'

  unfoldable pub pod_client_func : ℕ → List (Received W) → Scheduler W → Option (Scheduler W)
  unfolding serve
  pod_client_func pod_sockfd rs s = serve pod_sockfd (replicate req_msg_len 0) rs s

  -- The loop of `monitor_file` over the events.
  unfoldable pub monitor_file : Name → List (FileEvent W) → Scheduler W → Scheduler W
  unfolding read_resource_config
  monitor_file filename [] s = s
  monitor_file filename (e ∷ es) s = monitor_file filename es (
      if not (e.len == 0) && (e.in_close_write && name_eq e.name filename)
      then read_resource_config e.contents s
      else s)
