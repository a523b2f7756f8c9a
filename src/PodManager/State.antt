-- ===== src/PodManager/State.antt =====
-- The globals of src/pod-manager.cpp, its memory accounting, and the entries of a connection.
-- A `size_t` keeps its wrap-around.
use fa_st_manager.Comm.Message.{Statics}
use fa_st_manager.Common.Int.{ℤ}
use fa_st_manager.Double.{Double, nought}
use fa_st_manager.Common.{
  ℕ, List, ◌^◌, value_or, ◌+◌, if◌then◌else◌, insert, erase, lookup, ◌-◌, ◌%◌, is_some, not, ◌==◌,
  nat_eq, ltb,
}

pub record Pod {ℓ} (W : Type ℓ) : Type ℓ where
  pub gpu_mem_limit : ℕ
  pub gpu_mem_used : ℕ
  pub allocation_map : List (ℕ × ℕ)
  pub client_burst_map : List (ℕ × W)
  pub pod_overuse_ms : W
  pub pod_quota : W
  pub quota_updated_tp : ℤ
  pub quota_state : ℕ
  pub kernel_launch_count : ℕ
  pub sleeping_count : ℕ
  pub scheduler_recv_sync : ℕ
  pub request_queue : List (ℕ × List ℕ)
  pub response_map : List (ℕ × List ℕ)
  pub statics : Statics

abbrev pub max_size : ℕ
max_size = 2 ^ 64

-- `map[k]`, which gives 0 where the key is missing.
abbrev pub held : ℕ → List (ℕ × ℕ) → ℕ
held sockfd m = value_or 0 (lookup sockfd m)

-- `a - b` and `a + b` on `size_t`
abbrev pub minus_size : ℕ → ℕ → ℕ
minus_size a b = (a + (max_size - b)) % max_size

abbrev pub plus_size : ℕ → ℕ → ℕ
plus_size a b = (a + b) % max_size

-- `map.insert`, which leaves an entry that is there.
abbrev pub insert_new {ℓ} : {V : Type ℓ} → ℕ → V → List (ℕ × V) → List (ℕ × V)
insert_new k v m = if is_some (lookup k m) then m else insert k v m

module _ {ℓ} {W : Type ℓ} where
  abbrev pub allocated : ℕ → ℕ → Pod W → Pod W
  allocated size sockfd p = record p {
    gpu_mem_used = plus_size p.gpu_mem_used size;
    allocation_map = insert sockfd (plus_size (held sockfd p.allocation_map) size) p.allocation_map;
  }

  abbrev pub released : ℕ → ℕ → Pod W → Pod W
  released size sockfd p = record p {
    gpu_mem_used = minus_size p.gpu_mem_used size;
    allocation_map =
        insert sockfd (minus_size (held sockfd p.allocation_map) size) p.allocation_map;
  }

  unfoldable pub hook_update_memory_usage : ℕ → ℕ → ℕ → Pod W → ℕ × Pod W
  hook_update_memory_usage size is_allocate sockfd p =
      if not (is_allocate == 0)
      then (if ltb p.gpu_mem_limit (plus_size p.gpu_mem_used size)
          then (0, p)
          else (1, allocated size sockfd p))
      else (1, released size sockfd p)

  -- What `main` does with a new connection.
  unfoldable pub accept_client : ⦃d : Double W⦄ → ℕ → Pod W → Pod W
  accept_client sockfd p = record p {
    allocation_map = insert_new sockfd 0 p.allocation_map;
    client_burst_map = insert_new sockfd nought p.client_burst_map;
  }

  -- What `hook_thread_func` does once the connection is closed.
  unfoldable pub close_client : ℕ → Pod W → Pod W
  close_client sockfd p = record p {
    gpu_mem_used = minus_size p.gpu_mem_used (held sockfd p.allocation_map);
    allocation_map = erase sockfd p.allocation_map;
    client_burst_map = erase sockfd p.client_burst_map;
  }
