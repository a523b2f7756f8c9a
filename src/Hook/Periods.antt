-- ===== src/Hook/Periods.antt =====
-- The two predictors of src/hook.cpp: a burst of kernels and a window between bursts take turns.
use mathlib.Core.Path.{subst}
use fa_st_manager.Comm.Buffer.{get_msg_data}
use fa_st_manager.Comm.Message.{Request, req_quota, prepare_request, parse_response, req_msg_len}
use fa_st_manager.Predictor.Period.{
  ongoing_unmerged, record_start, record_stop, interrupt, Predictor, tp_max, ms_between,
}
use fa_st_manager.Common.Int.{ℤ, eqb_ℤ}
use fa_st_manager.Hook.State.{Hook, Peer, communicate, get_token_from_scheduler}
use fa_st_manager.Hook.Tokens.{
  host_sync_call, renew_token, launch_kernel_prehook, Readings, next_burst, track_overuse, renewed,
}
use fa_st_manager.Double.{Double}
use mathlib.Core.Option.{some-injective}
use fa_st_manager.Common.{
  true, false, ◌≡◌, some, List, arith, ℕ, >>=-eq-some, if◌then◌else◌, replicate, ◌>>=◌, sym, ap,
  ◌∙◌, Bool-cases, inl, inr,
}

module _ {ℓ} {W : Type ℓ} ⦃d : Double W⦄ where
  pub record_start-ongoing_unmerged :
      (now : ℤ) (p : Predictor W)
      → eqb_ℤ now tp_max ≡ false
      → ongoing_unmerged (record_start now p) ≡ true
  unfolding record_start
  record_start-ongoing_unmerged now p h = ground arith

  record_stop-ongoing_unmerged :
      (now : ℤ) (p : Predictor W) → ongoing_unmerged (record_stop now p) ≡ false
  unfolding record_stop
  record_stop-ongoing_unmerged now p = ground arith

  module _ {κ} {S : Type κ} where
    -- A burst runs and no window does, or the other way round.
    abbrev pub InBurst : Hook W S → Type 0
    InBurst k =
        (ongoing_unmerged k.burst_predictor ≡ true) × (ongoing_unmerged k.window_predictor ≡ false)

    abbrev pub InWindow : Hook W S → Type 0
    InWindow k =
        (ongoing_unmerged k.burst_predictor ≡ false) × (ongoing_unmerged k.window_predictor ≡ true)

    module _ (peer : Peer S) where
      communicate-window_predictor :
          (req : Request) (k : Hook W S) {bytes : List ℕ} {k' : Hook W S}
          → communicate peer req k ≡ some (bytes, k')
          → k'.window_predictor ≡ k.window_predictor
      unfolding communicate
      communicate-window_predictor req k run =
          let (out, _, sent) =
            >>=-eq-some (prepare_request k.host k.statics (replicate req_msg_len 0) req)
              (λ out. peer out.1 k.peer_state >>= λ ans.
                some (ans.0, record k { statics = out.2; peer_state = ans.1 }))
              run in
          let (ans, _, end) =
            >>=-eq-some (peer out.1 k.peer_state)
              (λ ans. some (ans.0, record k { statics = out.2; peer_state = ans.1 })) sent in
          sym (ap (λ u. u.1.window_predictor) (some-injective _ _ end))

      get_token-window_predictor :
          (burst : W) (k : Hook W S) {quota : W} {k' : Hook W S}
          → get_token_from_scheduler peer burst k ≡ some (quota, k')
          → k'.window_predictor ≡ k.window_predictor
      unfolding get_token_from_scheduler
      get_token-window_predictor burst k run =
          let req = req_quota (d.to_bits k.overuse) (d.to_bits burst) in
          let (ans, made, parsed) =
            >>=-eq-some (communicate peer req k)
              (λ ans. parse_response ans.0 >>= λ head.
                get_msg_data 8 ans.0 head.1 >>= λ quota. some (d.of_bits quota.0, ans.1))
              run in
          let (head, _, read) =
            >>=-eq-some (parse_response ans.0)
              (λ head. get_msg_data 8 ans.0 head.1 >>= λ quota. some (d.of_bits quota.0, ans.1))
              parsed in
          let (quota, _, end) =
            >>=-eq-some (get_msg_data 8 ans.0 head.1) (λ quota. some (d.of_bits quota.0, ans.1))
              read in
          sym (ap (λ u. u.1.window_predictor) (some-injective _ _ end))
          ∙ communicate-window_predictor req k made

      renew_token-window_predictor :
          (t : Readings W) (k : Hook W S) {k' : Hook W S}
          → renew_token peer t k ≡ some k'
          → ongoing_unmerged k'.window_predictor ≡ false
      unfolding renew_token interrupt
      renew_token-window_predictor t k run =
          let (burst, k1) = next_burst t k in
          let k2 =
            if k1.overuse_trk_cmpl then k1 else track_overuse t.elapsed t.at_sync t.at_resync k1 in
          let k3 : Hook W S = record k2 { window_predictor = interrupt k2.window_predictor } in
          let (out, token, end) =
            >>=-eq-some (get_token_from_scheduler peer burst k3)
              (λ out. some (renewed t.at_renewal out)) run in
          let same = get_token-window_predictor burst k3 token in
          sym (ap (λ u. ongoing_unmerged u.window_predictor) (some-injective _ _ end))
          ∙ ap ongoing_unmerged same

      -- After a launch that is let through a burst runs and no window, whether the token was renewed or
      -- not. The clock is not at the end of its range.
      pub launch_kernel_prehook-InBurst :
          (t : Readings W) (k : Hook W S) {k' : Hook W S}
          → eqb_ℤ t.at_start tp_max ≡ false
          → launch_kernel_prehook peer t k ≡ some k'
          → InBurst k'
      unfolding launch_kernel_prehook
      launch_kernel_prehook-InBurst t k clock run =
          let k1 : Hook W S = record k {
            window_predictor = record_stop t.at_stop k.window_predictor;
          } in
          let over = d.le k1.quota_time (ms_between t.at_check k1.progress_start) in
          let (k2, middle, end) =
            >>=-eq-some (if over then renew_token peer t k1 else some k1)
              (λ k2.
                some (record k2 { burst_predictor = record_start t.at_start k2.burst_predictor }))
              run in
          let quiet : ongoing_unmerged k2.window_predictor ≡ false = elim (Bool-cases over) [
            | inl yes' ↦ renew_token-window_predictor t k1 (rw yes' at middle)
            | inr no' ↦
                subst (λ (u : Hook W S). ongoing_unmerged u.window_predictor ≡ false)
                  (some-injective _ _ (rw no' at middle))
                  (record_stop-ongoing_unmerged t.at_stop k.window_predictor)
          ] in
          subst (λ (u : Hook W S). InBurst u) (some-injective _ _ end)
            (record_start-ongoing_unmerged t.at_start k2.burst_predictor clock, quiet)

    -- After a synchronisation a window runs and no burst. The clock is not at the end of its range.
    pub host_sync_call-InWindow :
        (now later : ℤ) (k : Hook W S)
        → eqb_ℤ later tp_max ≡ false
        → InWindow (host_sync_call now later k)
    unfolding host_sync_call
    host_sync_call-InWindow now later k clock = (
      record_stop-ongoing_unmerged now k.burst_predictor,
      record_start-ongoing_unmerged later k.window_predictor clock,
    )
