-- ===== src/Older/State.antt =====
-- The globals of docker/kubeshare-gemini-scheduler/hook.cpp, and its exchanges with the daemon of the
-- Pod. `peer` and `none` are as in Hook/State.
use fa_st_manager.Common.{ℕ, List, Option, some, Bool, ◌>>=◌, replicate}
use fa_st_manager.Common.Int.{ℤ, pos, wrap64, div_ℤ, ◌-ℤ◌, ◌+ℤ◌, ◌*ℤ◌}
use fa_st_manager.Double.{Double}
use fa_st_manager.Comm.Buffer.{get_msg_data}
use fa_st_manager.Comm.Message.{
  Request, req_mem_limit, req_mem_update, req_quota, prepare_request, Host, parse_response, Statics,
  req_msg_len,
}
use fa_st_manager.Hook.State.{Peer}
use fa_st_manager.PodManager.State.{minus_size}
use fa_st_manager.Timer.{Timespec}
use fa_st_manager.Predictor.Period.{Predictor}

-- The microseconds from the first time to the second.
unfoldable pub us_since : Timespec → Timespec → ℤ
unfolding ◌-ℤ◌ ◌+ℤ◌ ◌*ℤ◌
us_since begin now =
    let seconds = wrap64 (wrap64 (now.tv_sec -ℤ begin.tv_sec) *ℤ pos 1_000_000) in
    wrap64 (seconds +ℤ div_ℤ (wrap64 (now.tv_nsec -ℤ begin.tv_nsec)) 1000)

pub record Older {ℓ κ} (W : Type ℓ) (S : Type κ) : Type (ℓ ⊔ κ) where
  pub allocation_map : List (ℕ × ℕ)
  pub gpu_mem_used : ℕ
  pub quota_time : W
  pub overuse : W
  pub overuse_trk_cmpl : Bool
  pub request_start : Timespec
  pub burst_predictor : Predictor W
  pub window_predictor : Predictor W
  pub debug_mode : Bool
  pub call_count : List (ℕ × ℕ)
  pub host : Host
  pub statics : Statics
  pub peer_state : S

module _ {ℓ κ} {W : Type ℓ} {S : Type κ} ⦃d : Double W⦄ (peer : Peer S) where
  -- Of the attempts only the one that succeeds is here.
  unfoldable pub communicate : Request → Older W S → Option (List ℕ × Older W S)
  communicate req k = prepare_request k.host k.statics (replicate req_msg_len 0) req >>= λ out.
      peer out.1 k.peer_state >>= λ ans.
      some (ans.0, record k { statics = out.2; peer_state = ans.1 })

  -- The memory that remains, and the limit.
  unfoldable pub get_gpu_memory_info : Older W S → Option (ℕ × ℕ × Older W S)
  unfolding communicate
  get_gpu_memory_info k = communicate req_mem_limit k >>= λ ans. parse_response ans.0 >>= λ head.
      get_msg_data 8 ans.0 head.1 >>= λ used.
      get_msg_data 8 ans.0 used.1 >>= λ total. some (minus_size total.0 used.0, total.0, ans.1)

  -- The verdict.
  unfoldable pub update_memory_usage : ℕ → ℕ → Older W S → Option (ℕ × Older W S)
  unfolding communicate
  update_memory_usage bytes is_allocate k =
      communicate (req_mem_update bytes is_allocate) k >>= λ ans. parse_response ans.0 >>= λ head.
      get_msg_data 4 ans.0 head.1 >>= λ verdict. some (verdict.0, ans.1)

  -- The quota that is granted.
  unfoldable pub get_token_from_scheduler : W → Older W S → Option (W × Older W S)
  unfolding communicate
  get_token_from_scheduler next_burst k =
      communicate (req_quota (d.to_bits k.overuse) (d.to_bits next_burst)) k >>= λ ans.
      parse_response ans.0 >>= λ head.
      get_msg_data 8 ans.0 head.1 >>= λ quota. some (d.of_bits quota.0, ans.1)
