-- ===== src/Scheduler/Tokens.antt =====
-- The tokens that are out: `update_tokens`, `remove_ifexists` and the token part of
-- `schedule_daemon_func` in src/scheduler.cpp. `none` is a client that the map lacks.
use fa_st_manager.Common.{
  ℕ, Bool, true, false, List, [], ◌∷◌, ◌++◌, Option, none, some, Name, name_eq, lookup, insert, leb,
  ◌||◌, if◌then◌else◌, ◌>>=◌, replicate, not, ◌+◌, text_eq, is_empty,
}
use fa_st_manager.Double.{Double}
use fa_st_manager.Comm.Message.{prepare_response, rsp_quota, rsp_msg_len}
use fa_st_manager.Scheduler.Client.{get_quota, record_history}
use fa_st_manager.Scheduler.State.{
  Node, Candidate, Clients, Scheduler, add_size, sub_size, sm_global_limit,
}

module _ {ℓ} {W : Type ℓ} ⦃d : Double W⦄ where
  -- The loop of `update_tokens`: the tokens that stay, `g_sm_occupied`, and whether one expired.
  unfoldable pub expire :
      Clients W → W → List (Candidate W) → ℕ → Option (List (Candidate W) × ℕ × Bool)
  expire m now [] g = some ([], g, false)
  expire m now (t ∷ ts) g =
      let old = lookup t.name m >>= λ c.
      expire m now ts (sub_size g c.gpu_sm_partition) >>= λ r. some (r.0, r.1, true) in
      let young = expire m now ts g >>= λ r. some (t ∷ r.0, r.1, r.2) in
      if d.le t.expired_time now then old else young

  -- The result says whether the daemon should wait for one of the tokens.
  unfoldable pub update_tokens : W → Scheduler W → Option (Bool × Scheduler W)
  unfolding expire
  update_tokens now s =
      if is_empty s.token_takers
      then some (false, s)
      else (expire s.client_info_map now s.token_takers s.g_sm_occupied >>= λ r.
          some (not r.2, record s { token_takers = r.0; g_sm_occupied = r.1 }))

  -- The first token of the name is taken out.
  unfoldable pub remove_named :
      Clients W → Name → List (Candidate W) → ℕ → Option (Bool × List (Candidate W) × ℕ)
  remove_named m name [] g = some (false, [], g)
  remove_named m name (t ∷ ts) g =
      if name_eq t.name name
      then (lookup t.name m >>= λ c. some (true, ts, sub_size g c.gpu_sm_partition))
      else (remove_named m name ts g >>= λ r. some (r.0, t ∷ r.1, r.2))

  unfoldable pub remove_ifexists : Name → Scheduler W → Option (Bool × Scheduler W)
  unfolding remove_named
  remove_ifexists name s =
      remove_named s.client_info_map name s.token_takers s.g_sm_occupied >>= λ r.
      some (r.0, record s { token_takers = r.1; g_sm_occupied = r.2 })

  -- The body of the loop over the selected candidates. The clock is read for the history and again
  -- after the message is sent.
  unfoldable pub give_token : W → W → Candidate W → Scheduler W → Option (Scheduler W)
  unfolding get_quota record_history
  give_token now later selected s = lookup selected.name s.client_info_map >>= λ c.
      (let (quota, c') = get_quota c in
        prepare_response (replicate rsp_msg_len 0) selected.req_id (rsp_quota (d.to_bits quota))
        >>= λ out. some (record s {
          client_info_map = insert selected.name c' s.client_info_map;
          history_list = record_history now quota c' s.history_list;
          outbox = (selected.socket, out.0) ∷ s.outbox;
          g_sm_occupied = add_size s.g_sm_occupied c.gpu_sm_partition;
          token_takers =
              s.token_takers ++ (record selected { expired_time = d.plus later quota } ∷ []);
        }))

  -- The loop; `clock i` gives the two readings for the candidate at place `i`.
  unfoldable pub give_tokens :
      (ℕ → W × W) → ℕ → List (Candidate W) → Scheduler W → Option (Scheduler W)
  unfolding give_token
  give_tokens clock i [] s = some s
  give_tokens clock i (c ∷ cs) s =
      give_token (clock i).0 (clock i).1 c s >>= give_tokens clock (i + 1) cs

  -- `std::min_element` by `expired_time`, taken out of the list: the element and the others.
  unfoldable pub take_min : Candidate W → List (Candidate W) → Candidate W × List (Candidate W)
  take_min t [] = (t, [])
  take_min t (u ∷ us) =
      let (best, rest) = take_min u us in
      if d.lt best.expired_time t.expired_time then (best, t ∷ rest) else (t, u ∷ us)

  -- The token that expires first is taken back; there is none to take if the list is empty.
  unfoldable pub take_back : Scheduler W → List (Candidate W) → Option (Scheduler W)
  unfolding take_min
  take_back s [] = none
  take_back s (t ∷ ts) = lookup (take_min t ts).0.name s.client_info_map >>= λ c. some (record s {
    token_takers = (take_min t ts).1;
    g_sm_occupied = sub_size s.g_sm_occupied c.gpu_sm_partition;
  })

  -- The wait for the token `min_tokenp` timed out.
  unfoldable pub token_timed_out : Scheduler W → Option (Scheduler W)
  unfolding take_back
  token_timed_out s = take_back s s.token_takers

  -- The wait was ended by a request: whether a candidate is there that gave its token back or fits.
  unfoldable pub scan_candidates : List (Node W) → Scheduler W → Option (Bool × Scheduler W)
  unfolding remove_ifexists
  scan_candidates [] s = some (false, s)
  scan_candidates (n ∷ ns) s = remove_ifexists n.candidate.name s >>= λ r.
      lookup n.candidate.name s.client_info_map >>= λ c.
      (let rest = scan_candidates ns r.1 in
        if r.0 || leb (add_size c.gpu_sm_partition r.1.g_sm_occupied) sm_global_limit
        then some (true, r.1)
        else rest)
