-- ===== src/Hook/Tokens.antt =====
-- Kernel launches in src/hook.cpp: when a new token is asked for, and the tracking of overuse. Each
-- clock reading is an argument.
use fa_st_manager.Timer.{Timespec, Rounding, carried, giga}
use fa_st_manager.Predictor.Period.{
  predict_merged, set_upperbound, interrupt, record_stop, record_start, ms_between,
}
use fa_st_manager.Common.Int.{pos, ℤ}
use fa_st_manager.Hook.State.{Peer, Hook, get_token_from_scheduler}
use fa_st_manager.Double.{Double, nought, fmax}
use fa_st_manager.Common.{Option, some, if◌then◌else◌, true, false, ◌>>=◌}

-- What the clock shows during a launch, in the order of the readings, and `elapsed`, the time between
-- the events of the tracking thread.
pub record Readings {ℓ} (W : Type ℓ) : Type ℓ where
  pub at_stop : ℤ
  pub at_check : ℤ
  pub at_burst : ℤ
  pub at_window : ℤ
  pub at_sync : ℤ
  pub at_resync : ℤ
  pub elapsed : W
  pub at_renewal : ℤ
  pub at_start : ℤ

module _ {ℓ} {W : Type ℓ} ⦃d : Double W⦄ where
  -- `SCHD_OVERHEAD`
  abbrev pub schd_overhead : W
  schd_overhead = d.from_int (pos 2)

  unfoldable pub estimate_full_burst : W → W → W
  estimate_full_burst measured_burst measured_window =
      if d.lt measured_burst d.tiny
      then nought
      else (if d.lt measured_window schd_overhead
          then d.times measured_burst (d.from_int (pos 2))
          else measured_burst)

  -- The end of the wait of `wait_cuda_kernels` for a quota. The clock reading is an argument.
  unfoldable pub expiration : Rounding W → W → Timespec → Timespec
  unfolding carried
  expiration r quota_time ts =
      let nsec = d.times (fmax quota_time nought) (d.from_int (pos 1_000_000)) in
      let sec = r.floor (d.divided nsec (d.from_int (pos giga))) in
      let rest = d.minus nsec (d.times sec (d.from_int (pos giga))) in
      carried (r.to_long (d.plus (d.from_int ts.tv_sec) sec))
        (r.to_long (d.plus (d.from_int ts.tv_nsec) rest))

  module _ {κ} {S : Type κ} where
    -- Both calls read the clock.
    unfoldable pub host_sync_call : ℤ → ℤ → Hook W S → Hook W S
    host_sync_call now later k = record k {
      burst_predictor = record_stop now k.burst_predictor;
      window_predictor = record_start later k.window_predictor;
    }

    -- A round of `wait_cuda_kernels` from the synchronisation on: `elapsed` is the time between the events.
    unfoldable pub track_overuse : W → ℤ → ℤ → Hook W S → Hook W S
    unfolding host_sync_call
    track_overuse elapsed now later k = record (host_sync_call now later k) {
      overuse = fmax nought (d.minus elapsed k.quota_time);
      overuse_trk_cmpl = true;
    }

    -- The length of the next burst, from what both predictors measured.
    unfoldable pub next_burst : Readings W → Hook W S → W × Hook W S
    unfolding estimate_full_burst
    next_burst t k =
        let window = predict_merged t.at_window k.window_predictor in
        let burst = predict_merged t.at_burst k.burst_predictor in
        (
          estimate_full_burst burst.0 window.0,
          record k { burst_predictor = burst.1; window_predictor = window.1 },
        )

    -- With the response of the scheduler at hand.
    abbrev pub renewed : ℤ → W × Hook W S → Hook W S
    renewed now (quota, k) = record k {
      burst_predictor = set_upperbound (d.minus quota (d.from_int (pos 1))) k.burst_predictor;
      progress_start = now;
      quota_time = quota;
      overuse_trk_cmpl = false;
    }

    -- The branch for a quota that is used up. The thread waits for the tracking of the last token.
    unfoldable pub renew_token : Peer S → Readings W → Hook W S → Option (Hook W S)
    unfolding next_burst track_overuse
    renew_token peer t k =
        let (burst, k1) = next_burst t k in
        let k2 =
          if k1.overuse_trk_cmpl then k1 else track_overuse t.elapsed t.at_sync t.at_resync k1 in
        let k3 = record k2 { window_predictor = interrupt k2.window_predictor } in
        get_token_from_scheduler peer burst k3 >>= λ out. some (renewed t.at_renewal out)

    unfoldable pub launch_kernel_prehook : Peer S → Readings W → Hook W S → Option (Hook W S)
    unfolding renew_token
    launch_kernel_prehook peer t k =
        let k1 = record k { window_predictor = record_stop t.at_stop k.window_predictor } in
        (if d.le k1.quota_time (ms_between t.at_check k1.progress_start)
          then renew_token peer t k1
          else some k1)
        >>= λ k2. some (record k2 { burst_predictor = record_start t.at_start k2.burst_predictor })

    -- The end of `initialize`: the first token is asked for, and its quota is not used.
    unfoldable pub first_token : Peer S → Hook W S → Option (Hook W S)
    first_token peer k =
        get_token_from_scheduler peer nought (record k { overuse_trk_cmpl = true }) >>= λ out.
        some out.1
