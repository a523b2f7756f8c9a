-- ===== src/Hook/Ends.antt =====
-- The wait of a launch of src/hook.cpp that the tracking thread ends, and the whole launch by its steps.
use fa_st_manager.Common.Int.{ℤ}
use fa_st_manager.Hook.State.{Peer, Hook}
use fa_st_manager.Hook.Tokens.{
  Readings, next_burst, track_overuse, renewed, launch_kernel_prehook, renew_token,
}
use fa_st_manager.Predictor.Period.{record_start}
use fa_st_manager.Hook.Tracking.{
  Tracker, away, idle, signalled, timed, measuring, Launcher, computing, waits, asks, Tracking,
  signal_start, signal_intr, broadcast_cmpl, track, launch_within, want_token, renew, resumed,
  TrackStep, tracks, launches, wants, renews, tracking_created, HeardRun, none_yet, then_heard,
  is_heard, is_idle, stopped, is_used_up,
}
use fa_st_manager.Double.{Double}
use fa_st_manager.Common.{
  arith, Bool-cases, inl, inr, Option, none, some, Bool, true, false, if◌then◌else◌, ◌>>=◌, ◌≡◌,
  refl, ap,
}
use fa_st_manager.Hook.Waits.{is_off, renew-Renewed}

signal_intr-on : (a : Tracker) → is_off (signal_intr a) ≡ true → is_off a ≡ true
signal_intr-on away off = refl
signal_intr-on idle off = refl
signal_intr-on signalled off = off
signal_intr-on timed off = off
signal_intr-on measuring off = off

signal_start-heard : (a : Tracker) → is_idle a ≡ true → is_off (signal_start a) ≡ false
signal_start-heard away heard = absurd (ground (arith, heard))
signal_start-heard idle heard = refl
signal_start-heard signalled heard = refl
signal_start-heard timed heard = refl
signal_start-heard measuring heard = refl

abbrev pub is_waiting {ℓ} : {W : Type ℓ} → Launcher W → Bool
is_waiting computing = false
is_waiting (waits next_burst) = true
is_waiting (asks next_burst) = false

broadcast_cmpl-waiting {ℓ} : {W : Type ℓ} (a : Launcher W) → is_waiting (broadcast_cmpl a) ≡ false
broadcast_cmpl-waiting computing = refl
broadcast_cmpl-waiting (waits next_burst) = refl
broadcast_cmpl-waiting (asks next_burst) = refl

module _ {ℓ κ} {W : Type ℓ} {S : Type κ} ⦃d : Double W⦄ where
  -- The tracking is under way, or complete with no launch in its wait.
  abbrev pub Tracked : Tracking W S → Type 0
  Tracked s =
      is_off s.tracker ≡ true → (s.hook.overuse_trk_cmpl ≡ true) × (is_waiting s.launcher ≡ false)

  track-Tracked :
      (a : Tracker) (elapsed : W) (now later : ℤ) (s : Tracking W S)
      → s.tracker ≡ a
      → Tracked s
      → Tracked (track a elapsed now later s)
  unfolding track track_overuse
  track-Tracked away elapsed now later s at tracked off = tracked (rw at refl)
  track-Tracked idle elapsed now later s at tracked off = tracked off
  track-Tracked signalled elapsed now later s at tracked off = ground (arith, off)
  track-Tracked timed elapsed now later s at tracked off = ground (arith, off)
  track-Tracked measuring elapsed now later s at tracked off =
      (refl, broadcast_cmpl-waiting s.launcher)

  want_token-Tracked : (t : Readings W) (s : Tracking W S) → Tracked s → Tracked (want_token t s)
  unfolding want_token next_burst
  want_token-Tracked t s tracked = elim (Bool-cases s.hook.overuse_trk_cmpl) [
    | inl e ↦ rw e (λ off. (refl, refl))
    | inr e ↦ rw e (λ off. absurd (cc (e, (tracked (signal_intr-on s.tracker off)).0)))
  ]

  TrackStep-Tracked :
      {s u : Tracking W S} (step : TrackStep s u) → is_heard step ≡ true → Tracked s → Tracked u
  unfolding launch_within
  TrackStep-Tracked (tracks {s = s} elapsed now later) heard tracked =
      track-Tracked s.tracker elapsed now later s refl tracked
  TrackStep-Tracked (launches t at left) heard tracked = tracked
  TrackStep-Tracked (wants {s = s} t at used) heard tracked = want_token-Tracked t s tracked
  TrackStep-Tracked (renews {s = s} {u = u} peer t burst at run) heard tracked = λ off.
      let (cmpl, left, launcher) = renew-Renewed peer t burst s u run in
      absurd (cc (off, ap is_off left, signal_start-heard s.tracker heard))

  HeardRun-Tracked : {s u : Tracking W S} → HeardRun s u → Tracked s → Tracked u
  HeardRun-Tracked none_yet tracked = tracked
  HeardRun-Tracked (then_heard run step heard) tracked =
      TrackStep-Tracked step heard (HeardRun-Tracked run tracked)

  -- What the tracking thread does next, with the time between the events and two clock readings.
  abbrev pub turn : W × ℤ × ℤ → Tracking W S → Tracking W S
  turn (elapsed, now, later) s = track s.tracker elapsed now later s

  abbrev pub Ended : W → Tracking W S → Type ℓ
  Ended burst s = (s.launcher ≡ asks burst) × (s.hook.overuse_trk_cmpl ≡ true)

  busy-ends :
      (a : Tracker) (burst : W) (one two three : W × ℤ × ℤ) (s : Tracking W S)
      → s.tracker ≡ a
      → is_off a ≡ false
      → s.launcher ≡ waits burst
      → Ended burst (turn three (turn two (turn one s)))
  unfolding track track_overuse
  busy-ends away burst one two three s at busy waiting = absurd (ground (arith, busy))
  busy-ends idle burst one two three s at busy waiting = absurd (ground (arith, busy))
  busy-ends signalled burst one two three s at busy waiting = rw (at, waiting) (refl, refl)
  busy-ends timed burst one two three s at busy waiting = rw (at, waiting) (refl, refl)
  busy-ends measuring burst one two three s at busy waiting = rw (at, waiting) (refl, refl)

  -- From the start of the tracking thread on, if each start finds it at its wait, a launch that waits for
  -- the tracking has the end of its wait within three steps of the tracking thread, and the tracking is
  -- then complete.
  pub heard_wait-Ended :
      (k : Hook W S) (burst : W) (one two three : W × ℤ × ℤ) {s : Tracking W S}
      → HeardRun (tracking_created k) s
      → s.launcher ≡ waits burst
      → Ended burst (turn three (turn two (turn one s)))
  heard_wait-Ended k burst one two three {s} run waiting =
      let tracked = HeardRun-Tracked run (λ off. (refl, refl)) in
      elim (Bool-cases (is_off s.tracker)) [
        | inl off ↦ absurd (cc ((tracked off).1, ap is_waiting waiting))
        | inr off ↦ busy-ends s.tracker burst one two three s refl off waiting
      ]

  -- The tracking thread at the end of its round, if a launch waits for it.
  abbrev settled : Readings W → Tracking W S → Tracking W S
  settled t s =
      if s.hook.overuse_trk_cmpl then s else track measuring t.elapsed t.at_sync t.at_resync s

  bind_hook :
      (t : Readings W) (s : Tracking W S) (o : Option (W × Hook W S))
      → ((o >>= λ out. some (resumed t s out)) >>= λ u. some u.hook) ≡ (
          (o >>= λ out. some (renewed t.at_renewal out)) >>= λ k.
          some (record k { burst_predictor = record_start t.at_start k.burst_predictor }))
  bind_hook t s none = refl
  bind_hook t s (some out) = refl

  -- The steps of a launch that needs a token, with the end of the tracking between them if it waits for
  -- that, make the whole `cuLaunchKernel_prehook`.
  steps-prehook :
      (peer : Peer S) (t : Readings W) (s : Tracking W S)
      → is_used_up t s ≡ true
      → (renew peer t (next_burst t (stopped t s.hook)).0 (settled t (want_token t s)) >>= λ u.
          some u.hook)
        ≡ launch_kernel_prehook peer t s.hook
  unfolding launch_kernel_prehook renew_token want_token renew track next_burst
  steps-prehook peer t s used = elim (Bool-cases s.hook.overuse_trk_cmpl) [
    | inl e ↦ rw (used, e) (bind_hook t s _)
    | inr e ↦ rw (used, e) (bind_hook t (record s { tracker = away }) _)
  ]
