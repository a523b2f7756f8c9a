-- ===== src/PodManager/Requests.antt =====
-- The request of a launch of src/pod-manager.cpp whose quota runs out, as src/scheduler.cpp takes it.
use fa_st_manager.Common.{
  ℕ, ◌+◌, ◌%◌, ◌^◌, ◌<◌, ◌≤◌, ◌≡◌, refl, List, [], ◌∷◌, ◌++◌, some, true, Name, All, length, lookup,
  lookup-insert, name_eq_iff, replicate, arith, ap, ◌∙◌, text_eq, nat_eq,
}
use fa_st_manager.Common.Int.{ℤ, negsuc}
use fa_st_manager.Double.{Double, nought}
use fa_st_manager.Comm.Buffer.{get_msg_data}
use fa_st_manager.Comm.Message.{
  Host, Parsed, c_string, name_of, parse_request, req_msg_len, req_quota,
}
use fa_st_manager.Comm.RoundTrip.{NonZero, request_round_trip}
use fa_st_manager.Hook.Quotas.{Arrives}
use fa_st_manager.PodManager.Bursts.{quota-fits}
use fa_st_manager.PodManager.Launch.{asked, check_quota, max_burst, noted, request_quota}
use fa_st_manager.PodManager.State.{Pod}
use fa_st_manager.Predictor.Period.{ms_between}
use fa_st_manager.Scheduler.Client.{ClientInfo, set_burst, update_return_time}
use fa_st_manager.Scheduler.Message.{handle_message, handle_quota}
use fa_st_manager.Scheduler.State.{Candidate, Scheduler}

module _ {ℓ} {W : Type ℓ} ⦃d : Double W⦄ where
  -- The client after its request.
  abbrev pub returned : W → W → W → ClientInfo W → Scheduler W → ClientInfo W
  returned now overuse burst c s =
      set_burst burst (update_return_time now overuse c s.history_list).0

  abbrev pub request_of : ℕ → Name → ℕ → W → Candidate W
  request_of sock name id later = record {
    socket = sock;
    name = name;
    req_id = id;
    arrived_time = later;
    expired_time = d.from_int (negsuc 0);
  }

  handle_asked :
      (sock at' : ℕ) (buf : List ℕ) (name : Name) (overuse burst now later : W) (s : Scheduler W)
      (c : ClientInfo W) (r : Parsed)
      → parse_request buf ≡ some r
      → c_string r.name ≡ some name
      → r.req_type ≡ 0
      → lookup name s.client_info_map ≡ some c
      → get_msg_data 8 buf r.attached ≡ some (d.to_bits overuse, r.attached + 8)
      → get_msg_data 8 buf (r.attached + 8) ≡ some (d.to_bits burst, at')
      → d.of_bits (d.to_bits overuse) ≡ overuse
      → d.of_bits (d.to_bits burst) ≡ burst
      → handle_message sock buf now later s
        ≡ some (handle_quota sock name r.req_id overuse burst now later c s)
  unfolding handle_message
  handle_asked sock at' buf name overuse burst now later s c r parsed named type_is found first
        second same same' =
      rw (parsed, named, found, type_is, first, second, same, same') refl

  pub queued :
      (sock id : ℕ) (name : Name) (overuse burst now later : W) (s : Scheduler W) (c : ClientInfo W)
      → (handle_quota sock name id overuse burst now later c s).candidates
        ≡ s.candidates
          ++ (record { node = s.next_node; candidate = request_of sock name id later } ∷ [])
  unfolding handle_quota
  queued sock id name overuse burst now later s c = refl

  -- The request leaves the partition, the window and the tokens alone.
  pub returned-partition :
      (now overuse burst : W) (c : ClientInfo W) (s : Scheduler W)
      → (returned now overuse burst c s).gpu_sm_partition ≡ c.gpu_sm_partition
  unfolding set_burst update_return_time
  returned-partition now overuse burst c s = ground arith

  pub handle_quota_keeps :
      (sock id : ℕ) (name : Name) (overuse burst now later : W) (s : Scheduler W) (c : ClientInfo W)
      → let u = handle_quota sock name id overuse burst now later c s in
        (u.window_size ≡ s.window_size)
        × (u.token_takers ≡ s.token_takers)
        × (lookup name u.client_info_map ≡ some (returned now overuse burst c s))
  unfolding handle_quota
  handle_quota_keeps sock id name overuse burst now later s c = (
    refl,
    refl,
    ground (
      arith,
      lookup-insert name name (returned now overuse burst c s) s.client_info_map,
      name_eq_iff name name,
    ),
  )

  -- A launch whose burst would end after the quota puts one request at the end of the queue, and the
  -- scheduler takes it for one of the daemon's name, with the overuse and the longest burst.
  pub asked_handled :
      (h : Host) (sockfd sock : ℕ) (now : ℤ) (t0 t1 : W) (overuse burst : W) (p : Pod W)
      (s : Scheduler W) (c : ClientInfo W)
      → All NonZero (name_of h p.statics)
      → length (name_of h p.statics) ≤ 47
      → p.statics.id < 2 ^ 32
      → Arrives (noted sockfd overuse burst p).pod_overuse_ms
      → Arrives (max_burst (noted sockfd overuse burst p).client_burst_map nought)
      → d.lt p.pod_quota (d.plus (ms_between now p.quota_updated_tp) burst) ≡ true
      → lookup (name_of h p.statics) s.client_info_map ≡ some c
      → (buf : List ℕ) × (q : Pod W) × (check_quota h sockfd now overuse burst p
          ≡ some (asked p.statics.id, q))
        × (q.request_queue ≡ p.request_queue ++ ((p.statics.id, buf) ∷ []))
        × (q.response_map ≡ p.response_map)
        × (handle_message sock buf t0 t1 s
            ≡ some (
                handle_quota sock
                  (name_of h p.statics)
                  p.statics.id
                  (noted sockfd overuse burst p).pod_overuse_ms
                  (max_burst (noted sockfd overuse burst p).client_burst_map nought)
                  t0
                  t1
                  c
                  s))
  unfolding check_quota request_quota
  asked_handled h sockfd sock now t0 t1 overuse burst p s c nz short small over_fits burst_fits over
        found =
      let name = name_of h p.statics in
      let told = (noted sockfd overuse burst p).pod_overuse_ms in
      let longest = max_burst (noted sockfd overuse burst p).client_burst_map nought in
      let (buf, parse, made, parsed, named, id_is, type_is, (first, second)) =
        request_round_trip h p.statics (replicate req_msg_len 0)
          (req_quota (d.to_bits told) (d.to_bits longest)) nz
          (omega (arith, quota-fits name (d.to_bits told) (d.to_bits longest))) (omega arith) small
          (over_fits.1, burst_fits.1) in
      let q : Pod W = record (noted sockfd overuse burst p) {
        quota_state = 1;
        request_queue = p.request_queue ++ ((p.statics.id, buf) ∷ []);
        statics = record { client_name = some name; id = (p.statics.id + 1) % 2 ^ 32 };
      } in
      let handled =
        handle_asked sock _ buf name told longest t0 t1 s c parse parsed named type_is found first
          second over_fits.0 burst_fits.0 in
      (
        buf,
        q,
        rw (over, made) refl,
        refl,
        refl,
        handled ∙ ap (λ i. some (handle_quota sock name i told longest t0 t1 c s)) id_is,
      )
