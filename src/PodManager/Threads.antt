-- ===== src/PodManager/Threads.antt =====
-- The threads of src/pod-manager.cpp: `retrieve_mem_info`, the requests of `hook_thread_func`, and the two
-- threads that talk to the scheduler.
use fa_st_manager.Comm.Buffer.{get_msg_data}
use fa_st_manager.PodManager.State.{Pod, hook_update_memory_usage, insert_new}
use fa_st_manager.Comm.Message.{
  prepare_response, rsp_msg_len, parse_response, parse_request, rsp_quota, rsp_mem_limit,
  rsp_mem_update,
}
use fa_st_manager.Double.{Double}
use fa_st_manager.Common.{
  true, false, Bool, ℕ, List, [], ◌∷◌, Option, none, some, replicate, Bool, ◌>>=◌, if◌then◌else◌,
  ◌+◌, ◌==◌, ltb, take, ◌-◌, drop,
}

-- What a hook thread does with a request: it answers, or it launches a kernel, which can wait.
pub data Handled {ℓ} (W : Type ℓ) : Type ℓ where
  reply : List ℕ → Handled W
  launch : (overuse burst : W) → Handled W
  silent : Handled W

abbrev pub no_bytes : List ℕ
no_bytes = replicate rsp_msg_len 0

-- `while (recv_zero_times <= 5)`: the lengths that `recv` returns, by whether they are positive, and how
-- many messages are handled before the connection counts as closed.
abbrev pub count_receptions : ℕ → List Bool → Option ℕ
count_receptions idle [] = none
count_receptions idle (true ∷ rest) = count_receptions idle rest >>= λ n. some (n + 1)
count_receptions idle (false ∷ rest) =
    let later = count_receptions (idle + 1) rest in if ltb 4 idle then some 0 else later

module _ {ℓ} {W : Type ℓ} ⦃d : Double W⦄ where
  -- `retrieve_mem_info` on the bytes that arrived: the assertion fails as `none`.
  unfoldable pub retrieve_mem_info : List ℕ → Pod W → Option (Pod W)
  retrieve_mem_info rbuf p = parse_response rbuf >>= λ head. get_msg_data 8 rbuf head.1 >>= λ used.
      get_msg_data 8 rbuf used.1 >>= λ limit.
      (if used.0 == 0
        then some (record p { gpu_mem_used = used.0; gpu_mem_limit = limit.0 })
        else none)

  -- A round of `hook_thread_func` on the bytes it received.
  unfoldable pub hook_request : ℕ → List ℕ → Pod W → Option (Handled W × Pod W)
  unfolding hook_update_memory_usage
  hook_request sockfd rbuf p = parse_request rbuf >>= λ req.
      (if req.req_type == 1
        then (prepare_response no_bytes req.req_id (rsp_mem_limit p.gpu_mem_used p.gpu_mem_limit)
            >>= λ out. some (reply out.0, p))
        else (if req.req_type == 2
            then (get_msg_data 8 rbuf req.attached >>= λ size.
                get_msg_data 4 rbuf size.1 >>= λ is_allocate.
                (let (ok, q) = hook_update_memory_usage size.0 is_allocate.0 sockfd p in
                  prepare_response no_bytes req.req_id (rsp_mem_update ok) >>= λ out.
                  some (reply out.0, q)))
            else (if req.req_type == 0
                then (get_msg_data 8 rbuf req.attached >>= λ overuse.
                    get_msg_data 8 rbuf overuse.1 >>= λ burst.
                    some (launch (d.of_bits overuse.0) (d.of_bits burst.0), p))
                else some (silent, p))))

  -- The answer of `hook_thread_func` to a launch.
  unfoldable pub reply_quota : ℕ → W → Option (List ℕ × ℕ)
  reply_quota rid remain = prepare_response no_bytes rid (rsp_quota (d.to_bits remain))

  abbrev pub send_front : List (ℕ × List ℕ) → Pod W → Option (List ℕ) × Pod W
  send_front [] p = (none, p)
  send_front (r ∷ rest) p = (some r.1, record p { request_queue = rest })

  -- A round of `scheduler_thread_send_func`: what it sends.
  unfoldable pub send_request : Pod W → Option (List ℕ) × Pod W
  send_request p = send_front p.request_queue p

  -- A round of `scheduler_thread_recv_func`: it waits, as `none`, until a launch thread is ready.
  unfoldable pub receive_response : List ℕ → Pod W → Option (Pod W)
  receive_response buf p = parse_response buf >>= λ head.
      (if p.scheduler_recv_sync == 0
        then none
        else some (record p {
          response_map =
              insert_new head.0 (take (rsp_msg_len - 4) (drop head.1 buf)) p.response_map;
        }))
