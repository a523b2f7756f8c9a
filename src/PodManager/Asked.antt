-- ===== src/PodManager/Asked.antt =====
-- A launch of src/pod-manager.cpp whose quota runs out, and src/scheduler.cpp at the other end: from the
-- request to the quota.
use fa_st_manager.Common.{
  ℕ, ◌^◌, ◌<◌, ◌≤◌, ◌≡◌, refl, List, [], ◌∷◌, ◌++◌, none, some, true, Name, All, length, lookup,
  insert, arith, ap, ◌∙◌, text_eq, nat_eq,
}
use fa_st_manager.Common.Int.{ℤ}
use fa_st_manager.Double.{Double, nought}
use fa_st_manager.Comm.Message.{Host, name_of, prepare_response, rsp_quota}
use fa_st_manager.Comm.RoundTrip.{NonZero}
use fa_st_manager.Hook.Quotas.{Arrives}
use fa_st_manager.PodManager.Exchange.{response_reaches_launch}
use fa_st_manager.PodManager.Launch.{
  asked, await_response, check_quota, max_burst, noted, take_response,
}
use fa_st_manager.PodManager.State.{Pod}
use fa_st_manager.PodManager.Threads.{no_bytes, receive_response}
use fa_st_manager.Predictor.Period.{ms_between}
use fa_st_manager.Scheduler.Client.{ClientInfo, get_quota, record_history}
use fa_st_manager.Scheduler.Message.{handle_message, handle_quota}
use fa_st_manager.Scheduler.State.{Scheduler, add_size}
use fa_st_manager.Scheduler.Tokens.{give_token}
use fa_st_manager.PodManager.Requests.{
  asked_handled, handle_quota_keeps, queued, request_of, returned,
}

module _ {ℓ} {W : Type ℓ} ⦃d : Double W⦄ where
  give_asked :
      (sock id len : ℕ) (name : Name) (out : List ℕ) (overuse burst now later t t' : W)
      (s : Scheduler W) (c : ClientInfo W)
      → prepare_response no_bytes id
          (rsp_quota (d.to_bits (get_quota (returned now overuse burst c s)).0))
        ≡ some (out, len)
      → (u : Scheduler W) × (give_token t t'
            (request_of sock name id later)
            (handle_quota sock name id overuse burst now later c s)
          ≡ some u)
        × (u.outbox ≡ (sock, out) ∷ s.outbox)
  unfolding give_token handle_quota
  give_asked sock id len name out overuse burst now later t t' s c made =
      let found = (handle_quota_keeps sock id name overuse burst now later s c).2 in
      let after = handle_quota sock name id overuse burst now later c s in
      let given = get_quota (returned now overuse burst c s) in
      let u : Scheduler W = record after {
        client_info_map = insert name given.1 after.client_info_map;
        history_list = record_history t given.0 given.1 after.history_list;
        outbox = (sock, out) ∷ s.outbox;
        g_sm_occupied =
            add_size after.g_sm_occupied (returned now overuse burst c s).gpu_sm_partition;
        token_takers =
            after.token_takers
            ++ (record (request_of sock name id later) { expired_time = d.plus t' given.0 } ∷ []);
      } in
      (u, rw (found, made) refl, refl)

  -- A launch whose burst would end after the quota puts one request at the end of the queue; the scheduler
  -- that handles it puts a candidate with its id at the end of its list; the token for that candidate is
  -- a response with which the launch gets the quota that the scheduler computes for the overuse and the
  -- longest burst that the daemon told it, and the overuse of the daemon is reset. Nothing else happens
  -- in between; the name of the Pod has at most 47 bytes, none of them NUL, and the scheduler has a
  -- client of that name; the three doubles arrive as they are sent; and no response with this id waits.
  pub quota_from_scheduler :
      (h : Host) (sockfd sock : ℕ) (now got : ℤ) (t0 t1 t2 t3 : W) (overuse burst : W) (p : Pod W)
      (s : Scheduler W) (c : ClientInfo W)
      → All NonZero (name_of h p.statics)
      → length (name_of h p.statics) ≤ 47
      → p.statics.id < 2 ^ 32
      → Arrives (noted sockfd overuse burst p).pod_overuse_ms
      → Arrives (max_burst (noted sockfd overuse burst p).client_burst_map nought)
      → d.lt p.pod_quota (d.plus (ms_between now p.quota_updated_tp) burst) ≡ true
      → lookup (name_of h p.statics) s.client_info_map ≡ some c
      → Arrives
          (get_quota (
            returned t0
              (noted sockfd overuse burst p).pod_overuse_ms
              (max_burst (noted sockfd overuse burst p).client_burst_map nought)
              c
              s)).0
      → lookup p.statics.id p.response_map ≡ none
      → (buf rsp : List ℕ) × (q q' r : Pod W) × (u v : Scheduler W) × (check_quota h sockfd now
            overuse burst p
          ≡ some (asked p.statics.id, q))
        × (q.request_queue ≡ p.request_queue ++ ((p.statics.id, buf) ∷ []))
        × (handle_message sock buf t0 t1 s ≡ some u)
        × (u.candidates
            ≡ s.candidates
              ++ (record {
                node = s.next_node;
                candidate = request_of sock (name_of h p.statics) p.statics.id t1;
              }
                  ∷ []))
        × (give_token t2 t3 (request_of sock (name_of h p.statics) p.statics.id t1) u ≡ some v)
        × (v.outbox ≡ (sock, rsp) ∷ s.outbox)
        × (receive_response rsp (await_response 1 q) ≡ some q')
        × (take_response p.statics.id got q' ≡ some r)
        × (r.pod_quota
            ≡ (get_quota (
                returned t0
                  (noted sockfd overuse burst p).pod_overuse_ms
                  (max_burst (noted sockfd overuse burst p).client_burst_map nought)
                  c
                  s)).0)
        × (r.pod_overuse_ms ≡ nought)
        × (r.response_map ≡ p.response_map)
  unfolding await_response
  quota_from_scheduler h sockfd sock now got t0 t1 t2 t3 overuse burst p s c nz short small
        over_fits burst_fits over found quota_fits new =
      let name = name_of h p.statics in
      let told = (noted sockfd overuse burst p).pod_overuse_ms in
      let longest = max_burst (noted sockfd overuse burst p).client_burst_map nought in
      let quota = (get_quota (returned t0 told longest c s)).0 in
      let (buf, q, asks, queue, same, handled) =
        asked_handled h sockfd sock now t0 t1 overuse burst p s c nz short small over_fits
          burst_fits over found in
      let (rsp, len, q', r, written, received, taken, is, _, none_left, rest) =
        response_reaches_launch p.statics.id (d.to_bits quota) got (await_response 1 q) small
          quota_fits.1 (omega arith) (ap (lookup p.statics.id) same ∙ new) in
      let u : Scheduler W = handle_quota sock name p.statics.id told longest t0 t1 c s in
      let (v, given, sent) =
        give_asked sock p.statics.id len name rsp told longest t0 t1 t2 t3 s c written in
      (
        buf,
        rsp,
        q,
        q',
        r,
        u,
        v,
        asks,
        queue,
        handled,
        queued sock p.statics.id name told longest t0 t1 s c,
        given,
        sent,
        received,
        taken,
        is ∙ quota_fits.0,
        none_left,
        rest ∙ same,
      )
