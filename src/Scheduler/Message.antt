-- ===== src/Scheduler/Message.antt =====
-- `handle_message` of src/scheduler.cpp.
use fa_st_manager.Common.{
  ℕ, List, [], ◌∷◌, ◌++◌, Option, none, some, Name, lookup, insert, leb, ltb, ◌||◌, ◌&&◌, not, ◌==◌,
  if◌then◌else◌, ◌>>=◌, replicate, ◌+◌, text_eq,
}
use fa_st_manager.Common.Int.{negsuc}
use fa_st_manager.Double.{Double}
use fa_st_manager.Comm.Buffer.{get_msg_data}
use fa_st_manager.Comm.Message.{
  Parsed, Response, parse_request, c_string, prepare_response, rsp_mem_limit, rsp_mem_update,
  rsp_msg_len,
}
use fa_st_manager.Scheduler.Client.{ClientInfo, update_return_time, set_burst}
use fa_st_manager.Scheduler.State.{Candidate, Scheduler, add_size, sub_size}

module _ {ℓ} {W : Type ℓ} ⦃d : Double W⦄ where
  -- `send` of a response
  abbrev pub respond : ℕ → ℕ → Response → Scheduler W → Option (Scheduler W)
  respond sock id rsp s = prepare_response (replicate rsp_msg_len 0) id rsp >>= λ out.
      some (record s { outbox = (sock, out.0) ∷ s.outbox })

  -- REQ_QUOTA. The clock is read for the return time and again for the arrival.
  unfoldable pub handle_quota :
      ℕ → Name → ℕ → W → W → W → W → ClientInfo W → Scheduler W → Scheduler W
  unfolding update_return_time set_burst
  handle_quota sock name id overuse burst now later c s =
      let (c', hs) = update_return_time now overuse c s.history_list in
      let candidate : Candidate W = record {
        socket = sock;
        name = name;
        req_id = id;
        arrived_time = later;
        expired_time = d.from_int (negsuc 0);
      } in
      record s {
        history_list = hs;
        client_info_map = insert name (set_burst burst c') s.client_info_map;
        candidates = s.candidates ++ (record { node = s.next_node; candidate = candidate } ∷ []);
        next_node = s.next_node + 1;
      }

  -- REQ_MEM_UPDATE: the verdict, and the client after it. `bytes>=0` always holds for a `size_t`.
  unfoldable pub update_memory : ℕ → ℕ → ClientInfo W → ℕ × ClientInfo W
  update_memory bytes is_allocate c =
      if (is_allocate == 0 && ltb bytes c.gpu_mem_used)
        || (not (is_allocate == 0) && leb (add_size c.gpu_mem_used bytes) c.gpu_mem_limit)
      then (
        1,
        if not (is_allocate == 0)
            then record c { gpu_mem_used = add_size c.gpu_mem_used bytes }
            else record c { gpu_mem_used = sub_size c.gpu_mem_used bytes },
      )
      else (0, c)

  -- By the type of the request.
  unfoldable pub dispatch :
      ℕ → List ℕ → W → W → Parsed → Name → ClientInfo W → Scheduler W → Option (Scheduler W)
  unfolding handle_quota update_memory
  dispatch sock buf now later p name c s =
      if p.req_type == 0
      then (get_msg_data 8 buf p.attached >>= λ overuse. get_msg_data 8 buf overuse.1 >>= λ burst.
          some (
            handle_quota sock name p.req_id (d.of_bits overuse.0) (d.of_bits burst.0) now later c
              s))
      else (if p.req_type == 1
          then respond sock p.req_id (rsp_mem_limit c.gpu_mem_used c.gpu_mem_limit) s
          else (if p.req_type == 2
              then (get_msg_data 8 buf p.attached >>= λ bytes.
                  get_msg_data 4 buf bytes.1 >>= λ is_allocate.
                  (let (verdict, c') = update_memory bytes.0 is_allocate.0 c in
                    respond sock p.req_id (rsp_mem_update verdict)
                      (record s { client_info_map = insert name c' s.client_info_map })))
              else some s))

  -- By what the map holds for the name.
  abbrev pub by_client :
      ℕ
      → List ℕ
      → W
      → W
      → Parsed
      → Name
      → Option (ClientInfo W)
      → Scheduler W
      → Option (Scheduler W)
  by_client sock buf now later p name none s = some s
  by_client sock buf now later p name (some c) s = dispatch sock buf now later p name c s

  -- `none` is an access outside the message.
  unfoldable pub handle_message : ℕ → List ℕ → W → W → Scheduler W → Option (Scheduler W)
  unfolding dispatch
  handle_message sock buf now later s = parse_request buf >>= λ p. c_string p.name >>= λ name.
      by_client sock buf now later p name (lookup name s.client_info_map) s
