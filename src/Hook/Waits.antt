-- ===== src/Hook/Waits.antt =====
-- Whether a launch of src/hook.cpp that waits for the tracking thread goes on.
use fa_st_manager.Common.Int.{ℤ}
use fa_st_manager.Hook.State.{Peer, Hook, get_token_from_scheduler}
use fa_st_manager.Hook.Tokens.{Readings, next_burst}
use fa_st_manager.Hook.Tracking.{
  Tracker, away, idle, signalled, timed, measuring, Launcher, computing, waits, asks, Tracking,
  signal_start, signal_intr, track, launch_within, want_token, renew, resumed, TrackStep, tracks,
  launches, wants, renews, TrackRun, begun, then_step,
}
use mathlib.Core.Path.{subst}
use mathlib.Core.Option.{some-injective}
use fa_st_manager.Double.{Double}
use fa_st_manager.Common.{Option, none, some, Bool, true, false, ◌>>=◌, ◌≡◌, refl, ap}

-- No start of the tracking has been heard since its last end.
abbrev pub is_off : Tracker → Bool
is_off away = true
is_off idle = true
is_off signalled = false
is_off timed = false
is_off measuring = false

abbrev pub is_asking {ℓ} : {W : Type ℓ} → Launcher W → Bool
is_asking computing = false
is_asking (waits next_burst) = false
is_asking (asks next_burst) = true

signal_intr-off : (a : Tracker) → is_off a ≡ true → is_off (signal_intr a) ≡ true
signal_intr-off away off = refl
signal_intr-off idle off = refl
signal_intr-off signalled off = off
signal_intr-off timed off = off
signal_intr-off measuring off = off

module _ {ℓ κ} {W : Type ℓ} {S : Type κ} ⦃d : Double W⦄ where
  -- The tracking is neither under way nor complete, and the quota is the one of `s`, from the same time.
  abbrev pub Lost : Tracking W S → Tracking W S → Type ℓ
  Lost s u =
      (u.hook.overuse_trk_cmpl ≡ false)
      × (is_off u.tracker ≡ true)
      × (is_asking u.launcher ≡ false)
      × (u.hook.quota_time ≡ s.hook.quota_time)
      × (u.hook.progress_start ≡ s.hook.progress_start)

  track-Lost :
      (a : Tracker) (elapsed : W) (now later : ℤ) (s u : Tracking W S)
      → u.tracker ≡ a
      → Lost s u
      → Lost s (track a elapsed now later u)
  unfolding track
  track-Lost away elapsed now later s u at (cmpl, off, asking, quota, start) =
      (cmpl, refl, asking, quota, start)
  track-Lost idle elapsed now later s u at lost = lost
  track-Lost signalled elapsed now later s u at (cmpl, off, asking, quota, start) =
      absurd (cc (off, ap is_off at))
  track-Lost timed elapsed now later s u at (cmpl, off, asking, quota, start) =
      absurd (cc (off, ap is_off at))
  track-Lost measuring elapsed now later s u at (cmpl, off, asking, quota, start) =
      absurd (cc (off, ap is_off at))

  want_token-Lost : (t : Readings W) (s u : Tracking W S) → Lost s u → Lost s (want_token t u)
  unfolding want_token next_burst
  want_token-Lost t s u (cmpl, off, asking, quota, start) =
      rw cmpl (refl, signal_intr-off u.tracker off, refl, quota, start)

  TrackStep-Lost : (s : Tracking W S) {u v : Tracking W S} → TrackStep u v → Lost s u → Lost s v
  unfolding launch_within
  TrackStep-Lost s (tracks {s = u} elapsed now later) lost =
      track-Lost u.tracker elapsed now later s u refl lost
  TrackStep-Lost s (launches t at left) lost = lost
  TrackStep-Lost s (wants {s = u} t at used) lost = want_token-Lost t s u lost
  TrackStep-Lost s (renews peer t burst at run) (cmpl, off, asking, quota, start) =
      absurd (cc (asking, ap is_asking at))

  TrackRun-Lost : (s : Tracking W S) {u v : Tracking W S} → TrackRun u v → Lost s u → Lost s v
  TrackRun-Lost s begun lost = lost
  TrackRun-Lost s (then_step run step) lost = TrackStep-Lost s step (TrackRun-Lost s run lost)

  -- What a renewal leaves of the state.
  abbrev pub Renewed : Tracking W S → Tracking W S → Type ℓ
  Renewed s u =
      (u.hook.overuse_trk_cmpl ≡ false)
      × (u.tracker ≡ signal_start s.tracker)
      × (u.launcher ≡ computing)

  resumed-Renewed :
      (t : Readings W) (s u : Tracking W S) (o : Option (W × Hook W S))
      → (o >>= λ out. some (resumed t s out)) ≡ some u
      → Renewed s u
  resumed-Renewed t s u none run = absurd (cc run)
  resumed-Renewed t s u (some out) run =
      subst (Renewed s) (some-injective _ _ run) (refl, refl, refl)

  pub renew-Renewed :
      (peer : Peer S) (t : Readings W) (burst : W) (s u : Tracking W S)
      → renew peer t burst s ≡ some u
      → Renewed s u
  unfolding renew
  renew-Renewed peer t burst s u run =
      resumed-Renewed t s u (get_token_from_scheduler peer burst _) run

  -- If the tracking thread is not back at its wait when a launch with a new token signals it to start,
  -- then whatever happens later, no launch asks for a token again: the quota and the time from which it
  -- counts stay, and the tracking is never complete.
  pub unheard_start-Lost :
      (peer : Peer S) (t : Readings W) (burst : W) (s u : Tracking W S) {v : Tracking W S}
      → s.tracker ≡ away
      → renew peer t burst s ≡ some u
      → TrackRun u v
      → Lost u v
  unheard_start-Lost peer t burst s u at run after =
      let (cmpl, left, launcher) = renew-Renewed peer t burst s u run in
      TrackRun-Lost u after (cmpl, rw (left, at) refl, rw launcher refl, refl, refl)
