-- ===== src/PodManager/Round.antt =====
-- A launch of src/pod-manager.cpp whose quota runs out, through a whole round of src/scheduler.cpp.
use mathlib.Core.List.{Permᴰ, Memᴰ}
use mathlib.Core.List.Memᴰ
use mathlib.Core.Path.{subst}
use mathlib.Core.Option.{some-injective}
use fa_st_manager.Common.{
  ℕ, ◌+◌, ◌^◌, ◌<◌, ◌≤◌, ◌≡◌, refl, sym, List, [], ◌∷◌, ◌++◌, none, some, true, Bool, All, length,
  lookup, arith, ap, ◌∙◌, text_eq, nat_eq, if◌then◌else◌,
}
use fa_st_manager.Common.Int.{ℤ}
use fa_st_manager.Double.{Double, nought}
use fa_st_manager.Comm.Message.{Host, name_of, prepare_response, rsp_quota}
use fa_st_manager.Comm.RoundTrip.{NonZero}
use fa_st_manager.Hook.Quotas.{Arrives}
use fa_st_manager.PodManager.Exchange.{response_reaches_launch}
use fa_st_manager.PodManager.Launch.{
  asked, await_response, check_quota, max_burst, noted, take_response,
}
use fa_st_manager.PodManager.Requests.{
  asked_handled, handle_quota_keeps, queued, request_of, returned, returned-partition,
}
use fa_st_manager.PodManager.State.{Pod}
use fa_st_manager.PodManager.Threads.{no_bytes, receive_response}
use fa_st_manager.Predictor.Period.{ms_between}
use fa_st_manager.Scheduler.Accounting.{young}
use fa_st_manager.Scheduler.Answered.{round_answers}
use fa_st_manager.Scheduler.Client.{ClientInfo, get_quota}
use fa_st_manager.Scheduler.Invariant.{Inv}
use fa_st_manager.Scheduler.Message.{handle_message, handle_quota}
use fa_st_manager.Scheduler.Parts.{total}
use fa_st_manager.Scheduler.Preserve.{handle_message-Inv}
use fa_st_manager.Scheduler.Progress.{left}
use fa_st_manager.Scheduler.Rounds.{Arrival, Round, daemon_round, serve_selects}
use fa_st_manager.Scheduler.Select.{within_window}
use fa_st_manager.Scheduler.State.{Node, Scheduler, ValidCandidate, sm_global_limit}
use fa_st_manager.Scheduler.Usage.{used_by}

module _ {ℓ} {W : Type ℓ} ⦃d : Double W⦄ where
  -- A response that was made for the launch reaches it.
  quota_reaches_launch :
      (id len : ℕ) (out : List ℕ) (quota : W) (got : ℤ) (p q : Pod W)
      → prepare_response no_bytes id (rsp_quota (d.to_bits quota)) ≡ some (out, len)
      → id < 2 ^ 32
      → Arrives quota
      → q.response_map ≡ p.response_map
      → lookup id p.response_map ≡ none
      → (q' r : Pod W) × (receive_response out (await_response 1 q) ≡ some q')
        × (take_response id got q' ≡ some r)
        × (r.pod_quota ≡ quota)
        × (r.pod_overuse_ms ≡ nought)
  unfolding await_response
  quota_reaches_launch id len out quota got p q made small fits same new =
      let (rsp, len', q', r, written, received, taken, is, _, none_left, _) =
        response_reaches_launch id (d.to_bits quota) got (await_response 1 q) small fits.1
          (omega arith) (ap (lookup id) same ∙ new) in
      let equal : rsp ≡ out =
        ap (λ (o : List ℕ × ℕ). o.0) (some-injective _ _ (sym written ∙ made)) in
      (
        q',
        r,
        subst (λ b. receive_response b (await_response 1 q) ≡ some q') equal received,
        taken,
        is ∙ fits.0,
        none_left,
      )

  module _ (sort : List (ValidCandidate W) → List (ValidCandidate W))
      (permutes : (vs : List (ValidCandidate W)) → Permᴰ vs (sort vs)) where
    -- A launch whose burst would end after the quota puts one request at the end of the queue; the
    -- scheduler that handles it makes a candidate of it, and the next round of its loop sends a response
    -- that is among the messages sent in every state in which the round ends; with that response the
    -- launch gets the quota that the scheduler computes for its client, from some last quota, and the
    -- overuse of the daemon is reset. The scheduler has a client of the daemon's name, which has used less
    -- of the window than its share and fits beside the tokens that are still good when the round begins,
    -- whatever else waits; its invariant holds, and the round has a pass. The name of the Pod has at
    -- most 47 bytes, none of them NUL; the overuse, the burst and each quota of the client arrive as they
    -- are sent; and no response with this id waits.
    pub launch_served_by_round :
        (h : Host) (sockfd sock : ℕ) (now got : ℤ) (t0 t1 : W) (overuse burst : W) (p : Pod W)
        (s : Scheduler W) (c : ClientInfo W) (r : Round W) (p0 : W × List (Arrival W))
        (ps : List (W × List (Arrival W)))
        → let name = name_of h p.statics in
          let id = p.statics.id in
          let told = (noted sockfd overuse burst p).pod_overuse_ms in
          let longest = max_burst (noted sockfd overuse burst p).client_burst_map nought in
          let c' = returned t0 told longest c s in
          let u = handle_quota sock name id told longest t0 t1 c s in
          let start = d.minus p0.0 s.window_size in
          let size = if d.lt start nought then p0.0 else s.window_size in
          All NonZero name
          → length name ≤ 47
          → id < 2 ^ 32
          → Arrives told
          → Arrives longest
          → ((q : W) → Arrives (get_quota (record c' { quota = q })).0)
          → d.lt p.pod_quota (d.plus (ms_between now p.quota_updated_tp) burst) ≡ true
          → lookup id p.response_map ≡ none
          → Inv s []
          → lookup name s.client_info_map ≡ some c
          → r.passes ≡ p0 ∷ ps
          → d.lt nought
              (left c' size (used_by name start (within_window start u.history_list) nought))
            ≡ true
          → total u.client_info_map (young r.before s.token_takers) + c.gpu_sm_partition
            ≤ sm_global_limit
          → (buf rsp : List ℕ) × (q q' q'' : Pod W) × (v : Scheduler W) × (last : W) × (check_quota
                h sockfd now overuse burst p
              ≡ some (asked id, q))
            × (q.request_queue ≡ p.request_queue ++ ((id, buf) ∷ []))
            × (handle_message sock buf t0 t1 s ≡ some u)
            × (daemon_round sort r u ≡ serve_selects sort r (some []) v)
            × Memᴰ (sock, rsp) v.outbox
            × ((b : Bool) (t : Scheduler W)
                → daemon_round sort r u ≡ some (b, t)
                → Memᴰ (sock, rsp) t.outbox)
            × (receive_response rsp (await_response 1 q) ≡ some q')
            × (take_response id got q' ≡ some q'')
            × (q''.pod_quota ≡ (get_quota (record c' { quota = last })).0)
            × (q''.pod_overuse_ms ≡ nought)
    launch_served_by_round h sockfd sock now got t0 t1 overuse burst p s c r p0 ps nz short small
          over_fits burst_fits quota_fits over new inv found first below fit =
        let name = name_of h p.statics in
        let id = p.statics.id in
        let told = (noted sockfd overuse burst p).pod_overuse_ms in
        let longest = max_burst (noted sockfd overuse burst p).client_burst_map nought in
        let c' = returned t0 told longest c s in
        let u : Scheduler W = handle_quota sock name id told longest t0 t1 c s in
        let n : Node W = record { node = s.next_node; candidate = request_of sock name id t1 } in
        let (buf, q, asks, queue, same, handled) =
          asked_handled h sockfd sock now t0 t1 overuse burst p s c nz short small over_fits
            burst_fits over found in
        let inv' : Inv u [] = handle_message-Inv sock buf t0 t1 s [] inv handled in
        let (window, tokens, client) = handle_quota_keeps sock id name told longest t0 t1 s c in
        let waits : Memᴰ n u.candidates =
          subst (Memᴰ n) (sym (queued sock id name told longest t0 t1 s c))
            (Memᴰ.append_right s.candidates (Memᴰ.head refl)) in
        let below' =
          subst
            (λ (w : W).
              let start = d.minus p0.0 w in
              let size = if d.lt start nought then p0.0 else w in
              d.lt nought
                (left c' size (used_by name start (within_window start u.history_list) nought))
              ≡ true)
            (sym window) below in
        let fit' : total u.client_info_map (young r.before u.token_takers) + c'.gpu_sm_partition
            ≤ sm_global_limit =
          rw (tokens, returned-partition t0 told longest c s) fit in
        let (v, whole, (last, rsp, len, made, sent), keeps) =
          round_answers sort permutes r p0 ps u n c' inv' first waits client below' fit' in
        let (q', q'', received, taken, is, none_left) =
          quota_reaches_launch id len rsp (get_quota (record c' { quota = last })).0 got p q made
            small (quota_fits last) same new in
        (
          buf,
          rsp,
          q,
          q',
          q'',
          v,
          last,
          asks,
          queue,
          handled,
          whole,
          sent,
          (λ b t run. keeps b t run (sock, rsp) sent),
          received,
          taken,
          is,
          none_left,
        )
