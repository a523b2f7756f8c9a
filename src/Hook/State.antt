-- ===== src/Hook/State.antt =====
-- The globals of src/hook.cpp, and its exchanges with the daemon of the Pod. `peer` is the other end
-- of the connection: what it answers to a request. `none` stands for `exit` and for undefined behaviour.
use fa_st_manager.PodManager.State.{minus_size}
use fa_st_manager.Comm.Buffer.{get_msg_data}
use fa_st_manager.Predictor.Period.{Predictor}
use fa_st_manager.Common.Int.{ℤ}
use fa_st_manager.Comm.Message.{
  Request, req_mem_limit, req_mem_update, req_quota, prepare_request, Host, parse_response, Statics,
  req_msg_len,
}
use fa_st_manager.Double.{Double}
use fa_st_manager.Common.{ℕ, List, Option, some, Bool, ◌>>=◌, replicate}

-- `CUresult`
pub data CuResult : Type 0 where
  cuda_success : CuResult
  cuda_error_out_of_memory : CuResult
  cuda_error : ℕ → CuResult

pub record Hook {ℓ κ} (W : Type ℓ) (S : Type κ) : Type (ℓ ⊔ κ) where
  pub allocation_map : List (ℕ × ℕ)
  pub devptrs_mngr : List (ℕ × ℕ × ℕ)
  pub gpu_mem_used : ℕ
  pub quota_time : W
  pub overuse : W
  pub overuse_trk_cmpl : Bool
  pub progress_start : ℤ
  pub burst_predictor : Predictor W
  pub window_predictor : Predictor W
  pub call_count : List (ℕ × ℕ)
  pub host : Host
  pub statics : Statics
  pub peer_state : S

-- What the other end answers to the bytes of a request.
abbrev pub Peer {κ} : Type κ → Type κ
Peer S = List ℕ → S → Option (List ℕ × S)

module _ {ℓ κ} {W : Type ℓ} {S : Type κ} ⦃d : Double W⦄ (peer : Peer S) where
  -- A request is prepared in a cleared buffer and sent: the bytes of the response. Of the attempts only
  -- the one that succeeds is here.
  unfoldable pub communicate : Request → Hook W S → Option (List ℕ × Hook W S)
  communicate req k = prepare_request k.host k.statics (replicate req_msg_len 0) req >>= λ out.
      peer out.1 k.peer_state >>= λ ans.
      some (ans.0, record k { statics = out.2; peer_state = ans.1 })

  -- The memory that remains, and the limit.
  unfoldable pub get_gpu_memory_info : Hook W S → Option (ℕ × ℕ × Hook W S)
  unfolding communicate
  get_gpu_memory_info k = communicate req_mem_limit k >>= λ ans. parse_response ans.0 >>= λ head.
      get_msg_data 8 ans.0 head.1 >>= λ used.
      get_msg_data 8 ans.0 used.1 >>= λ limit. some (minus_size limit.0 used.0, limit.0, ans.1)

  -- The verdict.
  unfoldable pub update_memory_usage : ℕ → ℕ → Hook W S → Option (ℕ × Hook W S)
  unfolding communicate
  update_memory_usage bytes is_allocate k =
      communicate (req_mem_update bytes is_allocate) k >>= λ ans. parse_response ans.0 >>= λ head.
      get_msg_data 4 ans.0 head.1 >>= λ verdict. some (verdict.0, ans.1)

  -- The quota that is granted.
  unfoldable pub get_token_from_scheduler : W → Hook W S → Option (W × Hook W S)
  unfolding communicate
  get_token_from_scheduler next_burst k =
      communicate (req_quota (d.to_bits k.overuse) (d.to_bits next_burst)) k >>= λ ans.
      parse_response ans.0 >>= λ head.
      get_msg_data 8 ans.0 head.1 >>= λ quota. some (d.of_bits quota.0, ans.1)
