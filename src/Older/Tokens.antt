-- ===== src/Older/Tokens.antt =====
-- Kernel launches in docker/kubeshare-gemini-scheduler/hook.cpp: a new token is asked for when a burst
-- begins that may outlast the quota. Each clock reading is an argument.
use fa_st_manager.Common.{Option, some, if◌then◌else◌, true, false, ◌>>=◌}
use fa_st_manager.Common.Int.{ℤ, pos}
use fa_st_manager.Double.{Double, nought, fmax}
use fa_st_manager.Hook.State.{Peer}
use fa_st_manager.Hook.Tokens.{Readings, schd_overhead}
use fa_st_manager.Older.State.{Older, us_since, get_token_from_scheduler}
use fa_st_manager.Timer.{Timespec, Rounding, carried, giga}
use fa_st_manager.Predictor.Period.{
  predict_merged, predict_unmerged, set_upperbound, interrupt, record_stop, record_start,
  ongoing_unmerged,
}

-- The readings that the newer version does not make: that of `predict_unmerged` in the arguments of
-- `DEBUG`, those of the guard, and that of the new token.
pub record Guard : Type 0 where
  pub at_debug : ℤ
  pub at_elapsed : Timespec
  pub at_unmerged : ℤ
  pub at_request : Timespec

module _ {ℓ} {W : Type ℓ} ⦃d : Double W⦄ where
  unfoldable pub estimate_full_burst : W → W → W
  estimate_full_burst measured_burst measured_window =
      if d.lt measured_burst d.tiny
      then nought
      else (if d.lt measured_window schd_overhead
          then d.times measured_burst (d.from_int (pos 2))
          else measured_burst)

  -- The end of the wait of `wait_cuda_kernels` for a quota. The clock reading is an argument.
  unfoldable pub expiration : Rounding W → W → Timespec → Timespec
  unfolding carried
  expiration r quota_time ts =
      let nsec = d.times (fmax quota_time nought) (d.from_int (pos 1_000_000)) in
      let sec = r.floor (d.divided nsec (d.from_int (pos giga))) in
      let rest = d.minus nsec (d.times sec (d.from_int (pos giga))) in
      carried (r.to_long (d.plus (d.from_int ts.tv_sec) sec))
        (r.to_long (d.plus (d.from_int ts.tv_nsec) rest))

  module _ {κ} {S : Type κ} where
    -- Both calls read the clock.
    unfoldable pub host_sync_call : ℤ → ℤ → Older W S → Older W S
    host_sync_call now later k = record k {
      burst_predictor = record_stop now k.burst_predictor;
      window_predictor = record_start later k.window_predictor;
    }

    -- A round of `wait_cuda_kernels` from the synchronisation on: `elapsed` is the time between the events.
    unfoldable pub track_overuse : W → ℤ → ℤ → Older W S → Older W S
    unfolding host_sync_call
    track_overuse elapsed now later k = record (host_sync_call now later k) {
      overuse = fmax nought (d.minus elapsed k.quota_time);
      overuse_trk_cmpl = true;
    }

    -- With the response of the scheduler at hand.
    abbrev pub granted : Timespec → W × Older W S → Older W S
    granted now (quota, k) = record k {
      burst_predictor = set_upperbound (d.minus quota (d.from_int (pos 1))) k.burst_predictor;
      request_start = now;
      quota_time = quota;
      overuse_trk_cmpl = false;
    }

    -- The branch that asks for a token. The thread waits for the tracking of the last token.
    unfoldable pub renew_token : Peer S → Readings W → Guard → Older W S → Option (Older W S)
    unfolding estimate_full_burst track_overuse
    renew_token peer t u k =
        let window = predict_merged t.at_window k.window_predictor in
        let burst = predict_merged t.at_burst k.burst_predictor in
        let k1 : Older W S = record k { burst_predictor = burst.1; window_predictor = window.1 } in
        let k2 =
          if k1.overuse_trk_cmpl then k1 else track_overuse t.elapsed t.at_sync t.at_resync k1 in
        let k3 = record k2 { window_predictor = interrupt k2.window_predictor } in
        get_token_from_scheduler peer (estimate_full_burst burst.0 window.0) k3 >>= λ out.
        some (granted u.at_request out)

    -- The guard: the time since the request and the length of a burst, against the quota. A burst that
    -- is under way goes on, and its length is not predicted.
    unfoldable pub check_token : Peer S → Readings W → Guard → Older W S → Option (Older W S)
    unfolding renew_token us_since
    check_token peer t u k =
        if ongoing_unmerged k.burst_predictor
        then some k
        else (let burst = predict_unmerged u.at_unmerged k.burst_predictor in
            let k1 : Older W S = record k { burst_predictor = burst.1 } in
            let elapsed = d.from_us (us_since k.request_start u.at_elapsed) in
            if d.le k1.quota_time (d.plus elapsed burst.0)
            then renew_token peer t u k1
            else some k1)

    unfoldable pub launch_kernel_prehook :
        Peer S → Readings W → Guard → Older W S → Option (Older W S)
    unfolding check_token
    launch_kernel_prehook peer t u k =
        let k1 : Older W S = record k {
          window_predictor = record_stop t.at_stop k.window_predictor;
          burst_predictor = (predict_unmerged u.at_debug k.burst_predictor).1;
        } in
        check_token peer t u k1 >>= λ k2.
        some (record k2 { burst_predictor = record_start t.at_start k2.burst_predictor })

    -- The end of `initialize`: the first token is asked for, and its quota is not used.
    unfoldable pub first_token : Peer S → Older W S → Option (Older W S)
    first_token peer k =
        get_token_from_scheduler peer nought (record k { overuse_trk_cmpl = true }) >>= λ out.
        some out.1
