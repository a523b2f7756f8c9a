-- ===== src/PodManager/Launch.antt =====
-- `hook_kernel_launch` of src/pod-manager.cpp, as the parts between its waits: other threads can run
-- between two parts, and each part is what the thread does once its wait is over.
use fa_st_manager.Predictor.Period.{ms_between}
use fa_st_manager.Comm.Buffer.{get_msg_data}
use fa_st_manager.PodManager.State.{Pod}
use fa_st_manager.Comm.Message.{Host, prepare_request, req_msg_len, req_quota}
use fa_st_manager.Common.Int.{ℤ}
use fa_st_manager.Double.{Double, fmax, nought}
use fa_st_manager.Common.{
  ℕ, List, [], ◌∷◌, Option, none, some, ◌+◌, Bool, ◌-◌, insert, lookup, if◌then◌else◌, ◌==◌,
  replicate, ◌>>=◌, ltb, nat_eq, true, false, erase, ◌++◌,
}

-- How the part after the gate ends: with the answer, or with the id of the request that is waited for.
pub data Launched {ℓ} (W : Type ℓ) : Type ℓ where
  answered : W → Launched W
  asked : ℕ → Launched W

module _ {ℓ} {W : Type ℓ} ⦃d : Double W⦄ where
  unfoldable pub enter_launch : Pod W → Pod W
  enter_launch p = record p { kernel_launch_count = p.kernel_launch_count + 1 }

  -- One round of `while (quota_state != 0)`: whether the thread goes on.
  unfoldable pub pass_gate : Pod W → Bool × Pod W
  pass_gate p =
      if p.quota_state == 0
      then (true, p)
      else (false, record p { sleeping_count = p.sleeping_count + 1 })

  unfoldable pub leave_launch : Pod W → Pod W
  leave_launch p = record p { kernel_launch_count = p.kernel_launch_count - 1 }

  -- `for (auto x : client_burst_map) max_burst = std::max(x.second, max_burst)`
  unfoldable pub max_burst : List (ℕ × W) → W → W
  max_burst [] acc = acc
  max_burst (x ∷ xs) acc = max_burst xs (fmax x.1 acc)

  -- The overuse and the burst of the client.
  abbrev pub noted : ℕ → W → W → Pod W → Pod W
  noted sockfd overuse burst p = record p {
    pod_overuse_ms = fmax overuse p.pod_overuse_ms;
    client_burst_map = insert sockfd burst p.client_burst_map;
  }

  -- The quota is expected to run out: a request for the longest burst goes to the queue.
  unfoldable pub request_quota : Host → Pod W → Option (ℕ × Pod W)
  unfolding max_burst
  request_quota h p =
      prepare_request h p.statics (replicate req_msg_len 0)
        (req_quota (d.to_bits p.pod_overuse_ms) (d.to_bits (max_burst p.client_burst_map nought)))
      >>= λ out. some (
        out.0,
        record p {
          quota_state = 1;
          request_queue = p.request_queue ++ ((out.0, out.1) ∷ []);
          statics = out.2;
        },
      )

  -- The part from the gate to the answer, or to the wait for the scheduler.
  unfoldable pub check_quota : Host → ℕ → ℤ → W → W → Pod W → Option (Launched W × Pod W)
  unfolding request_quota leave_launch
  check_quota h sockfd now overuse burst p =
      let q = noted sockfd overuse burst p in
      let elapsed = ms_between now q.quota_updated_tp in
      if d.lt q.pod_quota (d.plus elapsed burst)
      then (request_quota h q >>= λ out. some (asked out.0, out.1))
      else some (answered (d.minus q.pod_quota elapsed), leave_launch q)

  -- What the thread writes before it waits for `rsp_map_cond`, and after.
  unfoldable pub await_response : ℕ → Pod W → Pod W
  await_response sync p = record p { scheduler_recv_sync = sync }

  abbrev pub with_response : ℕ → ℤ → Option (List ℕ) → Pod W → Option (Pod W)
  with_response id now none p = none
  with_response id now (some data_) p = get_msg_data 8 data_ 0 >>= λ quota. some (record p {
    pod_quota = d.of_bits quota.0;
    quota_updated_tp = now;
    pod_overuse_ms = nought;
    response_map = erase id p.response_map;
  })

  -- The thread wakes up: `none` when its response is not there and it waits again.
  unfoldable pub take_response : ℕ → ℤ → Pod W → Option (Pod W)
  take_response id now p = with_response id now (lookup id p.response_map) p

  -- The end of the branch that asked. `none` is the wait on `sleeping_count_cond`.
  unfoldable pub finish_request : Pod W → Option (W × Pod W)
  unfolding leave_launch
  finish_request p =
      if ltb (p.sleeping_count + 1) p.kernel_launch_count
      then none
      else some (
        d.minus p.pod_quota nought,
        leave_launch (record p { quota_state = 0; sleeping_count = 0 }),
      )

  -- The thread that waits on `sleeping_count_cond` tests its loop once more. `none` is the wait again.
  unfoldable pub resume_request : Pod W → Option (W × Pod W)
  unfolding leave_launch
  resume_request p =
      if ltb p.sleeping_count p.kernel_launch_count
      then none
      else some (d.minus p.pod_quota nought, leave_launch (record p { sleeping_count = 0 }))
