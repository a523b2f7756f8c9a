-- ===== src/Scheduler/Config.antt =====
-- `read_resource_config` of src/scheduler.cpp. What the stream operators read is given as rows.
use fa_st_manager.Common.{ℕ, List, [], ◌∷◌, Name, insert, text_eq}
use fa_st_manager.Double.{Double}
use fa_st_manager.Scheduler.Client.{ClientInfo, client_info}
use fa_st_manager.Scheduler.State.{Clients, Scheduler}

pub record Row {ℓ} (W : Type ℓ) : Type ℓ where
  pub client_name : Name
  pub gpu_min_fraction : W
  pub gpu_max_fraction : W
  pub sm_partition : ℕ
  pub gpu_memory_size : ℕ

module _ {ℓ} {W : Type ℓ} ⦃d : Double W⦄ where
  unfoldable pub client_of : Scheduler W → Row W → ClientInfo W
  unfolding client_info
  client_of s r =
      client_info s.quota s.min_quota (d.times r.gpu_min_fraction s.window_size) r.gpu_min_fraction
        r.gpu_max_fraction r.client_name r.sm_partition r.gpu_memory_size

  -- The loop over the rows: a name that is there gets a new object.
  unfoldable pub read_rows : Scheduler W → List (Row W) → Clients W → Clients W
  unfolding client_of
  read_rows s [] m = m
  read_rows s (r ∷ rs) m = read_rows s rs (insert r.client_name (client_of s r) m)

  unfoldable pub read_resource_config : List (Row W) → Scheduler W → Scheduler W
  unfolding read_rows
  read_resource_config rows s = record s { client_info_map = read_rows s rows s.client_info_map }
