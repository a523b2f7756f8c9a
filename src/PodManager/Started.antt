-- ===== src/PodManager/Started.antt =====
-- The start of src/pod-manager.cpp against src/scheduler.cpp: the daemon asks for the memory limit of its
-- Pod, and accepts connections from then on.
use fa_st_manager.Common.{
  ℕ, zero, suc, ◌==◌, ◌^◌, ◌<◌, ◌≤◌, ◌≡◌, refl, List, [], ◌∷◌, Option, none, some, Bool, true,
  false, Name, All, length, lookup, replicate, arith, ◌>>=◌, text_eq,
}
use fa_st_manager.Common.Int.{ℤ, pos}
use fa_st_manager.Double.{Double, nought}
use fa_st_manager.Comm.Answers.{response_round_trip}
use fa_st_manager.Comm.Attempt.{Attempts, Outcome, multiple_attempt}
use fa_st_manager.Comm.Message.{
  Host, Statics, name_of, prepare_request, req_mem_limit, req_msg_len, Parsed, parse_request,
  c_string, prepare_response, rsp_mem_limit, rsp_msg_len,
}
use fa_st_manager.Comm.RoundTrip.{NonZero, request_round_trip}
use fa_st_manager.PodManager.Recovery.{Idle, Balanced, Moves, stay, after, accepts, Moves-Balanced}
use fa_st_manager.PodManager.Startup.{connect_and_bind, or_exit}
use fa_st_manager.PodManager.State.{Pod, accept_client}
use fa_st_manager.Scheduler.Client.{ClientInfo}
use fa_st_manager.Scheduler.Message.{handle_message}
use fa_st_manager.Scheduler.State.{Scheduler}

abbrev pub fresh_statics : Statics
fresh_statics = record { client_name = none; id = 0 }

module _ {ℓ} {W : Type ℓ} ⦃d : Double W⦄ where
  -- The globals when `main` is called.
  abbrev pub fresh_pod : Pod W
  fresh_pod = record {
    gpu_mem_limit = 0;
    gpu_mem_used = 0;
    allocation_map = [];
    client_burst_map = [];
    pod_overuse_ms = nought;
    pod_quota = nought;
    quota_updated_tp = pos 0;
    quota_state = 0;
    kernel_launch_count = 0;
    sleeping_count = 0;
    scheduler_recv_sync = 0;
    request_queue = [];
    response_map = [];
    statics = fresh_statics;
  }

  -- The request that `retrieve_mem_info` sends.
  unfoldable pub ask_limit : Host → Pod W → Option (List ℕ × Pod W)
  ask_limit h p = prepare_request h p.statics (replicate req_msg_len 0) req_mem_limit >>= λ out.
      some (out.1, record p { statics = out.2 })

  -- The loop of `main` over what `accept` gives, -1 as `none`: whether it has ended.
  unfoldable pub accept_clients : List (Option ℕ) → Pod W → Bool × Pod W
  unfolding accept_client
  accept_clients [] p = (false, p)
  accept_clients (none ∷ fds) p = (true, p)
  accept_clients (some zero ∷ fds) p = (true, p)
  accept_clients (some (suc fd) ∷ fds) p = accept_clients fds (accept_client (suc fd) p)

  handle_limit :
      (sock len : ℕ) (buf ans : List ℕ) (name : Name) (now later : W) (s : Scheduler W)
      (c : ClientInfo W) (r : Parsed)
      → parse_request buf ≡ some r
      → c_string r.name ≡ some name
      → r.req_type ≡ 1
      → lookup name s.client_info_map ≡ some c
      → prepare_response
          (replicate rsp_msg_len 0)
          r.req_id
          (rsp_mem_limit c.gpu_mem_used c.gpu_mem_limit)
        ≡ some (ans, len)
      → handle_message sock buf now later s ≡ some (record s { outbox = (sock, ans) ∷ s.outbox })
  unfolding handle_message
  handle_limit sock len buf ans name now later s c r parsed named type_is found written =
      rw (parsed, named, found, type_is, written) refl

  -- The loop only accepts.
  accept_clients-Moves :
      (fds : List (Option ℕ)) {p q : Pod W} → Moves p q → Moves p (accept_clients fds q).1
  unfolding accept_clients
  accept_clients-Moves [] m = m
  accept_clients-Moves (none ∷ fds) m = m
  accept_clients-Moves (some zero ∷ fds) m = m
  accept_clients-Moves (some (suc fd) ∷ fds) m =
      accept_clients-Moves fds (after m (accepts (suc fd)))

  -- The daemon of a Pod starts with the memory limit that the scheduler has for the client of its name:
  -- the scheduler answers its request and changes nothing else, and the daemon is then without
  -- connections, and balanced after it has accepted any. The connection, the exchange and the port
  -- succeed, the name has at most 47 bytes, none of them NUL, and the client uses no memory of its limit.
  pub limit_from_scheduler :
      (h : Host) (connect exchange bind : ℕ → Outcome) (at : ℤ) (sock : ℕ) (fds : List (Option ℕ))
      (now later : W) (s : Scheduler W) (c : ClientInfo W) {a b e : Attempts}
      → or_exit (multiple_attempt connect 5 10) ≡ some a
      → or_exit (multiple_attempt exchange 5 0) ≡ some b
      → or_exit (multiple_attempt bind 5 10) ≡ some e
      → All NonZero (name_of h fresh_statics)
      → length (name_of h fresh_statics) ≤ 47
      → lookup (name_of h fresh_statics) s.client_info_map ≡ some c
      → c.gpu_mem_used ≡ 0
      → c.gpu_mem_limit < 2 ^ 64
      → (buf rsp : List ℕ) × (p q : Pod W) × (t : Scheduler W) × (ask_limit h fresh_pod
          ≡ some (buf, p))
        × (handle_message sock buf now later s ≡ some t)
        × (t ≡ record s { outbox = (sock, rsp) ∷ s.outbox })
        × (connect_and_bind connect exchange bind rsp at p ≡ some q)
        × (q.gpu_mem_limit ≡ c.gpu_mem_limit)
        × Idle q
        × Balanced (accept_clients fds q).1
  unfolding ask_limit handle_message connect_and_bind
  limit_from_scheduler h connect exchange bind at sock fds now later s c ca cb ce nz short found
        unused wide =
      let (out, r, made, parsed, named, id_is, type_is, _) =
        request_round_trip h fresh_statics (replicate req_msg_len 0) req_mem_limit nz (omega arith)
          (omega arith) (omega arith) tt in
      let (ans, len, written, _, read, brings) =
        response_round_trip (replicate rsp_msg_len 0) 0
          (rsp_mem_limit c.gpu_mem_used c.gpu_mem_limit) (omega arith) (omega arith)
          (omega arith) in
      let asked : Pod W = record fresh_pod {
        statics = record { client_name = some (name_of h fresh_statics); id = 1 };
      } in
      let started : Pod W = record asked {
        gpu_mem_limit = c.gpu_mem_limit;
        gpu_mem_used = c.gpu_mem_used;
        quota_updated_tp = at;
      } in
      let none_used : (c.gpu_mem_used == 0) ≡ true = ground arith in
      (
        out,
        ans,
        asked,
        started,
        record s { outbox = (sock, ans) ∷ s.outbox },
        rw made refl,
        handle_limit sock len out ans (name_of h fresh_statics) now later s c r parsed named type_is
            found (rw id_is written),
        refl,
        rw (ca, cb, read, brings.0, brings.1, none_used, ce) refl,
        refl,
        (refl, unused, wide),
        Moves-Balanced (accept_clients-Moves fds stay) (refl, unused, wide),
      )
