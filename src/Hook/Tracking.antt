-- ===== src/Hook/Tracking.antt =====
-- The tracking thread `wait_cuda_kernels` and the launches of src/hook.cpp as steps on one state. A step
-- takes a thread from one wait to the next, and a wait ends only by a signal or at its time.
-- `expiration_status_mutex` admits one launch at a time.
use fa_st_manager.Predictor.Period.{interrupt, record_stop, record_start, ms_between}
use fa_st_manager.Common.Int.{ℤ}
use fa_st_manager.Hook.State.{Peer, Hook, get_token_from_scheduler}
use fa_st_manager.Hook.Tokens.{Readings, next_burst, renewed, track_overuse}
use fa_st_manager.Double.{Double}
use fa_st_manager.Common.{Bool, Option, some, true, false, if◌then◌else◌, ◌>>=◌, ◌≡◌}

-- Where the tracking thread is.
pub data Tracker : Type 0 where
  away : Tracker  -- on the way to the wait on `overuse_trk_strt_cond`
  idle : Tracker  -- in that wait
  signalled : Tracker  -- on the way to the wait on `overuse_trk_intr_cond`
  timed : Tracker  -- in that wait
  measuring : Tracker  -- behind both waits

-- Where the thread that launches is, with the next burst that it expects.
pub data Launcher {ℓ} (W : Type ℓ) : Type ℓ where
  computing : Launcher W  -- not in the branch for a quota that is used up
  waits : (next_burst : W) → Launcher W  -- in the wait on `overuse_trk_cmpl_cond`
  asks : (next_burst : W) → Launcher W  -- behind that wait

pub record Tracking {ℓ κ} (W : Type ℓ) (S : Type κ) : Type (ℓ ⊔ κ) where
  pub hook : Hook W S
  pub tracker : Tracker
  pub launcher : Launcher W

-- `pthread_cond_signal(&overuse_trk_strt_cond)`
abbrev pub signal_start : Tracker → Tracker
signal_start idle = signalled
signal_start away = away
signal_start signalled = signalled
signal_start timed = timed
signal_start measuring = measuring

-- `pthread_cond_signal(&overuse_trk_intr_cond)`
abbrev pub signal_intr : Tracker → Tracker
signal_intr timed = measuring
signal_intr away = away
signal_intr idle = idle
signal_intr signalled = signalled
signal_intr measuring = measuring

-- `pthread_cond_broadcast(&overuse_trk_cmpl_cond)`
abbrev pub broadcast_cmpl {ℓ} : {W : Type ℓ} → Launcher W → Launcher W
broadcast_cmpl (waits next_burst) = asks next_burst
broadcast_cmpl computing = computing
broadcast_cmpl (asks next_burst) = asks next_burst

module _ {ℓ κ} {W : Type ℓ} {S : Type κ} ⦃d : Double W⦄ where
  -- The state when `initialize` has created the tracking thread.
  abbrev pub tracking_created : Hook W S → Tracking W S
  tracking_created k = record {
    hook = record k { overuse_trk_cmpl = true };
    tracker = away;
    launcher = computing;
  }

  -- The test of the quota in `cuLaunchKernel_prehook`.
  abbrev pub is_used_up : Readings W → Tracking W S → Bool
  is_used_up t s = d.le s.hook.quota_time (ms_between t.at_check s.hook.progress_start)

  abbrev pub stopped : Readings W → Hook W S → Hook W S
  stopped t k = record k { window_predictor = record_stop t.at_stop k.window_predictor }

  abbrev begun_burst : Readings W → Hook W S → Hook W S
  begun_burst t k = record k { burst_predictor = record_start t.at_start k.burst_predictor }

  -- What the tracking thread does next. The wait on `overuse_trk_strt_cond` has no end of its own.
  unfoldable pub track : Tracker → W → ℤ → ℤ → Tracking W S → Tracking W S
  unfolding track_overuse
  track away elapsed now later s = record s { tracker = idle }
  track idle elapsed now later s = s
  track signalled elapsed now later s = record s { tracker = timed }
  track timed elapsed now later s = record s { tracker = measuring }
  track measuring elapsed now later s = record {
    hook = track_overuse elapsed now later s.hook;
    tracker = away;
    launcher = broadcast_cmpl s.launcher;
  }

  -- A launch while the quota lasts.
  unfoldable pub launch_within : Readings W → Tracking W S → Tracking W S
  launch_within t s = record s { hook = begun_burst t (stopped t s.hook) }

  -- A launch that needs a token, up to the end of its wait.
  unfoldable pub want_token : Readings W → Tracking W S → Tracking W S
  unfolding next_burst
  want_token t s =
      let (burst, k) = next_burst t (stopped t s.hook) in
      (if k.overuse_trk_cmpl
        then record s { hook = k; launcher = asks burst }
        else record { hook = k; tracker = signal_intr s.tracker; launcher = waits burst })

  -- With the new quota at hand.
  abbrev pub resumed : Readings W → Tracking W S → W × Hook W S → Tracking W S
  resumed t s out = record {
    hook = begun_burst t (renewed t.at_renewal out);
    tracker = signal_start s.tracker;
    launcher = computing;
  }

  -- The rest of it, with the expected burst.
  unfoldable pub renew : Peer S → Readings W → W → Tracking W S → Option (Tracking W S)
  renew peer t burst s =
      let k = record s.hook { window_predictor = interrupt s.hook.window_predictor } in
      get_token_from_scheduler peer burst k >>= λ out. some (resumed t s out)

  pub data TrackStep : Tracking W S → Tracking W S → Type (ℓ ⊔ κ) where
    tracks :
        {s : Tracking W S} (elapsed : W) (now later : ℤ)
        → TrackStep s (track s.tracker elapsed now later s)
    launches :
        {s : Tracking W S} (t : Readings W)
        → s.launcher ≡ computing
        → is_used_up t s ≡ false
        → TrackStep s (launch_within t s)
    wants :
        {s : Tracking W S} (t : Readings W)
        → s.launcher ≡ computing
        → is_used_up t s ≡ true
        → TrackStep s (want_token t s)
    renews :
        {s u : Tracking W S} (peer : Peer S) (t : Readings W) (burst : W)
        → s.launcher ≡ asks burst
        → renew peer t burst s ≡ some u
        → TrackStep s u

  pub data TrackRun (start : Tracking W S) : Tracking W S → Type (ℓ ⊔ κ) where
    begun : TrackRun start start
    then_step : {s u : Tracking W S} → TrackRun start s → TrackStep s u → TrackRun start u

-- Whether a signal of the launches to start finds the tracking thread in its wait.
abbrev pub is_idle : Tracker → Bool
is_idle idle = true
is_idle away = false
is_idle signalled = false
is_idle timed = false
is_idle measuring = false

module _ {ℓ κ} {W : Type ℓ} {S : Type κ} ⦃d : Double W⦄ where
  abbrev pub is_heard : {s u : Tracking W S} → TrackStep s u → Bool
  is_heard (tracks elapsed now later) = true
  is_heard (launches t at left) = true
  is_heard (wants t at used) = true
  is_heard (renews {s} peer t burst at run) = is_idle s.tracker

  -- A run in which each start is heard.
  pub data HeardRun (start : Tracking W S) : Tracking W S → Type (ℓ ⊔ κ) where
    none_yet : HeardRun start start
    then_heard :
        {s u : Tracking W S}
        → HeardRun start s
        → (step : TrackStep s u) → is_heard step ≡ true
        → HeardRun start u
