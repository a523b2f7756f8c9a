-- ===== src/Hook/Quotas.antt =====
-- The tokens of src/hook.cpp with the daemon of src/pod-manager.cpp at the other end, while its quota
-- lasts.
use mathlib.Core.Path.{subst}
use fa_st_manager.Common.{
  ℕ, ◌+◌, ◌-◌, ◌%◌, ◌^◌, ◌<◌, ◌≡◌, refl, List, Option, none, some, false, replicate, arith, ◌>>=◌,
  Bool-cases, inl, inr, ap, sym, ◌∙◌, All, if◌then◌else◌, length,
}
use fa_st_manager.Common.Int.{ℤ}
use fa_st_manager.Double.{Double, nought, fmax}
use fa_st_manager.Comm.Answers.{response_round_trip}
use fa_st_manager.Comm.Buffer.{get_msg_data}
use fa_st_manager.Comm.Message.{
  Host, Parsed, name_of, parse_request, req_msg_len, req_quota, rsp_quota,
}
use fa_st_manager.Comm.RoundTrip.{NonZero, request_round_trip}
use fa_st_manager.Hook.Rooms.{Speaks}
use fa_st_manager.Hook.State.{Hook, Peer, communicate, get_token_from_scheduler}
use fa_st_manager.Hook.Tokens.{
  Readings, next_burst, renew_token, renewed, track_overuse, host_sync_call,
}
use fa_st_manager.PodManager.Bursts.{quota-fits}
use fa_st_manager.PodManager.Launch.{
  Launched, answered, asked, check_quota, enter_launch, leave_launch, noted, pass_gate,
}
use fa_st_manager.PodManager.State.{Pod}
use fa_st_manager.PodManager.Threads.{
  Handled, hook_request, launch, no_bytes, reply, reply_quota, silent,
}
use fa_st_manager.Predictor.Period.{interrupt, ms_between}

module _ {ℓ} {W : Type ℓ} ⦃d : Double W⦄ where
  abbrev pub answer_launch : ℕ → Launched W × Pod W → Option (List ℕ × Pod W)
  answer_launch id (answered remain, p) = reply_quota id remain >>= λ out. some (out.0, p)
  answer_launch id (asked _, p) = none

  -- The rest of a round of `hook_thread_func`, with the clock reading of a launch. `none` is no answer: to
  -- an unknown request, or from a launch that waits.
  abbrev pub hook_round : Host → ℕ → ℤ → ℕ → Handled W × Pod W → Option (List ℕ × Pod W)
  hook_round h sockfd now id (reply bytes, p) = some (bytes, p)
  hook_round h sockfd now id (silent, p) = none
  hook_round h sockfd now id (launch overuse burst, p) =
      let gate = pass_gate (enter_launch p) in
      if gate.0
      then (check_quota h sockfd now overuse burst gate.1 >>= λ out. answer_launch id out)
      else none

  unfoldable pub launch_peer : Host → ℕ → ℤ → Peer (Pod W)
  unfolding hook_request pass_gate enter_launch check_quota reply_quota
  launch_peer h sockfd now buf p = parse_request buf >>= λ r.
      hook_request sockfd buf p >>= λ out. hook_round h sockfd now r.req_id out

  -- A double that is sent arrives.
  abbrev pub Arrives : W → Type ℓ
  Arrives x = (d.of_bits (d.to_bits x) ≡ x) × (d.to_bits x < 2 ^ 64)

  -- What is left of the daemon's quota.
  abbrev pub remaining : ℤ → Pod W → W
  remaining now p = d.minus p.pod_quota (ms_between now p.quota_updated_tp)

  launched :
      (h : Host) (sockfd : ℕ) (now : ℤ) (id len : ℕ) (overuse burst : W) (p : Pod W) (out : List ℕ)
      → p.quota_state ≡ 0
      → d.lt p.pod_quota (d.plus (ms_between now p.quota_updated_tp) burst) ≡ false
      → reply_quota id (remaining now p) ≡ some (out, len)
      → hook_round h sockfd now id (launch overuse burst, p)
        ≡ some (out, noted sockfd overuse burst p)
  unfolding pass_gate enter_launch check_quota leave_launch
  launched h sockfd now id len overuse burst p out ready lasts made =
      let count : p.kernel_launch_count + 1 - 1 ≡ p.kernel_launch_count = omega arith in
      rw (ready, lasts, made, count) refl

  launch_peer_lem :
      (h : Host) (sockfd : ℕ) (now : ℤ) (len at' : ℕ) (overuse burst : W) (p : Pod W)
      (buf out : List ℕ) (r : Parsed)
      → parse_request buf ≡ some r
      → r.req_type ≡ 0
      → get_msg_data 8 buf r.attached ≡ some (d.to_bits overuse, r.attached + 8)
      → get_msg_data 8 buf (r.attached + 8) ≡ some (d.to_bits burst, at')
      → d.of_bits (d.to_bits overuse) ≡ overuse
      → d.of_bits (d.to_bits burst) ≡ burst
      → p.quota_state ≡ 0
      → d.lt p.pod_quota (d.plus (ms_between now p.quota_updated_tp) burst) ≡ false
      → reply_quota r.req_id (remaining now p) ≡ some (out, len)
      → launch_peer h sockfd now buf p ≡ some (out, noted sockfd overuse burst p)
  unfolding launch_peer hook_request
  launch_peer_lem h sockfd now len at' overuse burst p buf out r parsed type_is first second same
        same' ready lasts made =
      rw (parsed, type_is, first, second, same, same')
        (launched h sockfd now r.req_id len overuse burst p out ready lasts made)

  -- A token that is asked for while the daemon's quota lasts is what is left of that quota, and the daemon
  -- notes the overuse and the burst.
  pub token_from_daemon :
      (h : Host) (sockfd : ℕ) (now : ℤ) (burst : W) (k : Hook W (Pod W))
      → Speaks k
      → Arrives k.overuse
      → Arrives burst
      → Arrives (remaining now k.peer_state)
      → k.peer_state.quota_state ≡ 0
      → d.lt k.peer_state.pod_quota (d.plus (ms_between now k.peer_state.quota_updated_tp) burst)
        ≡ false
      → (k' : Hook W (Pod W)) × (get_token_from_scheduler (launch_peer h sockfd now) burst k
          ≡ some (remaining now k.peer_state, k'))
        × (k' ≡ record k {
          statics = k'.statics;
          peer_state = noted sockfd k.overuse burst k.peer_state;
        })
  unfolding get_token_from_scheduler communicate launch_peer reply_quota
  token_from_daemon h sockfd now burst k (nz, short, small) over_fits burst_fits quota_fits ready
        lasts =
      let req = req_quota (d.to_bits k.overuse) (d.to_bits burst) in
      let (buf, r, made, parsed, _, id_is, type_is, (first, second)) =
        request_round_trip k.host k.statics (replicate req_msg_len 0) req nz
          (omega
            (arith, quota-fits (name_of k.host k.statics) (d.to_bits k.overuse) (d.to_bits burst)))
          (omega arith) small (over_fits.1, burst_fits.1) in
      let (ans, len, written, _, read, brings) =
        response_round_trip no_bytes k.statics.id
          (rsp_quota (d.to_bits (remaining now k.peer_state))) (omega arith) small quota_fits.1 in
      let k' : Hook W (Pod W) = record k {
        statics = record {
          client_name = some (name_of k.host k.statics);
          id = (k.statics.id + 1) % 2 ^ 32;
        };
        peer_state = noted sockfd k.overuse burst k.peer_state;
      } in
      let served =
        launch_peer_lem h sockfd now len _ k.overuse burst k.peer_state buf ans r parsed type_is
          first second over_fits.0 burst_fits.0 ready lasts (rw id_is written) in
      (k', rw (made, served, read, brings, quota_fits.0) refl, refl)

  -- The overuse that a renewal tells the daemon: that of the last token, which is measured first if its
  -- tracking is not yet complete.
  abbrev pub told_overuse {κ} : {S : Type κ} → Readings W → Hook W S → W
  told_overuse t k =
      if k.overuse_trk_cmpl then k.overuse else fmax nought (d.minus t.elapsed k.quota_time)

  -- The state in which `renew_token` asks.
  abbrev asking : Readings W → Hook W (Pod W) → Hook W (Pod W)
  asking t k =
      let k1 = (next_burst t k).1 in
      let k2 =
        if k.overuse_trk_cmpl then k1 else track_overuse t.elapsed t.at_sync t.at_resync k1 in
      record k2 { window_predictor = interrupt k2.window_predictor }

  asking_lem :
      (t : Readings W) (k : Hook W (Pod W))
      → ((asking t k).overuse ≡ told_overuse t k)
        × ((asking t k).peer_state ≡ k.peer_state)
        × ((asking t k).statics ≡ k.statics)
        × ((asking t k).host ≡ k.host)
  unfolding next_burst track_overuse host_sync_call
  asking_lem t k = elim (Bool-cases k.overuse_trk_cmpl) [
    | inl done ↦ rw done (refl, refl, refl, refl)
    | inr running ↦ rw running (refl, refl, refl, refl)
  ]

  renewed_from :
      (peer : Peer (Pod W)) (t : Readings W) (k k' : Hook W (Pod W)) (quota : W)
      → get_token_from_scheduler peer (next_burst t k).0 (asking t k) ≡ some (quota, k')
      → renew_token peer t k ≡ some (renewed t.at_renewal (quota, k'))
  unfolding renew_token next_burst
  renewed_from peer t k k' quota h = rw h refl

  -- A renewal while the daemon's quota lasts gives the hook library what is left of that quota, and the
  -- daemon notes the overuse of the last token and the burst that is expected next; a new tracking is
  -- under way from the time of the renewal. The requests of the hook library fit, the three doubles
  -- arrive as they are sent, no quota operation is under way, and the burst ends within the quota.
  pub renew_token_lem :
      (h : Host) (sockfd : ℕ) (now : ℤ) (t : Readings W) (k : Hook W (Pod W))
      → Speaks k
      → Arrives (told_overuse t k)
      → Arrives (next_burst t k).0
      → Arrives (remaining now k.peer_state)
      → k.peer_state.quota_state ≡ 0
      → d.lt k.peer_state.pod_quota
          (d.plus (ms_between now k.peer_state.quota_updated_tp) (next_burst t k).0)
        ≡ false
      → (k' : Hook W (Pod W)) × (renew_token (launch_peer h sockfd now) t k ≡ some k')
        × (k'.quota_time ≡ remaining now k.peer_state)
        × (k'.progress_start ≡ t.at_renewal)
        × (k'.overuse_trk_cmpl ≡ false)
        × (k'.peer_state ≡ noted sockfd (told_overuse t k) (next_burst t k).0 k.peer_state)
  renew_token_lem h sockfd now t k (nz, short, small) over_fits burst_fits quota_fits ready lasts =
      let (over_is, peer_is, statics_is, host_is) = asking_lem t k in
      let burst = (next_burst t k).0 in
      let name_is : name_of (asking t k).host (asking t k).statics ≡ name_of k.host k.statics =
        rw (statics_is, host_is) refl in
      let (k', got, is) =
        token_from_daemon h sockfd now burst (asking t k)
          (
            subst (All NonZero) (sym name_is) nz,
            omega (arith, ap length name_is),
            omega (arith, ap (λ s. s.id) statics_is),
          )
          (subst Arrives (sym over_is) over_fits) burst_fits
          (subst (λ p. Arrives (remaining now p)) (sym peer_is) quota_fits)
          (subst (λ p. p.quota_state ≡ 0) (sym peer_is) ready)
          (subst (λ p. d.lt p.pod_quota (d.plus (ms_between now p.quota_updated_tp) burst) ≡ false)
            (sym peer_is) lasts) in
      (
        renewed t.at_renewal (remaining now (asking t k).peer_state, k'),
        renewed_from (launch_peer h sockfd now) t k k' (remaining now (asking t k).peer_state) got,
        ap (remaining now) peer_is,
        refl,
        refl,
        ap (λ x. x.peer_state) is ∙ (λ i. noted sockfd (over_is i) burst (peer_is i)),
      )
