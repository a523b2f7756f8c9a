-- ===== src/PodManager/Blocked.antt =====
-- The wait on `sleeping_count_cond` of src/pod-manager.cpp, and what the other threads can do meanwhile.
use native.Mathlib.Decide.{ℕ_discrete}
use fa_st_manager.PodManager.Counts.{count, count-extend}
use fa_st_manager.PodManager.Inside.{Counted, LaunchRun-Counted}
use fa_st_manager.PodManager.Launch.{await_response, enter_launch, resume_request}
use fa_st_manager.PodManager.Launches.{
  outside, gate, asleep, passed, waiting, taken, blocked, Phase, Launches, LaunchStep, LaunchRun,
  set, enters, tests, answers, asks, announces, takes, retries, finishes, blocks, resumes, sends,
  receives, begun, then_step,
}
use fa_st_manager.PodManager.Slept.{Slept, LaunchRun-Slept}
use fa_st_manager.PodManager.Sleepers.{
  captive, captives-count, check_quota-sleeping, receive_response-sleeping, send_request-sleeping,
  sleeping, sleeping-captive, take_response-sleeping, tally, tally-Beyond, tally-extend, tally-le,
  tally-lt,
}
use fa_st_manager.Comm.Message.{Host}
use fa_st_manager.Double.{Double}
use fa_st_manager.Common.{
  ℕ, suc, ◌+◌, ◌<◌, ◌≤◌, ◌==◌, true, false, refl, Bool, ◌≡◌, ◌∙◌, arith, ap, ltb, nat_eq,
}

-- A phase that a thread leaves only with `quota_state_mutex`.
abbrev pub is_stopped : Phase → Bool
is_stopped outside = false
is_stopped gate = true
is_stopped asleep = true
is_stopped passed = false
is_stopped (waiting req_id) = false
is_stopped taken = true
is_stopped blocked = true

set-other :
    (i : ℕ) (a : Phase) (f : ℕ → Phase) (j : ℕ)
    → is_stopped (f i) ≡ false
    → is_stopped (f j) ≡ true
    → set i a f j ≡ f j
set-other i a f j run stop = elim (ℕ_discrete i j) [
  | yes e ↦ absurd (cc (run, stop, ap (λ k. is_stopped (f k)) e))
  | no e ↦ ground (arith, e)
]

captive-set :
    (i : ℕ) (a : Phase) (f : ℕ → Phase)
    → captive (f i) ≤ captive a
    → (j : ℕ) → captive (f j) ≤ captive (set i a f j)
captive-set i a f h j = elim (ℕ_discrete i j) [
  | yes e ↦
      let same : (i == j) ≡ true = ground arith in
      rw same (omega (arith, h, ap (λ k. captive (f k)) e))
  | no e ↦ let ne : (i == j) ≡ false = ground arith in rw ne (omega arith)
]

Short-set :
    (i : ℕ) (a : Phase) (f : ℕ → Phase) (m sleepers : ℕ)
    → captive (f i) ≤ captive a
    → sleepers < tally captive f m
    → sleepers < tally captive (set i a f) m
Short-set i a f m sleepers h short =
    omega (arith, short, tally-le captive captive f (set i a f) m (captive-set i a f h))

module _ {ℓ} {W : Type ℓ} where
  -- Fewer threads are counted as sleeping than are captive among the first `m`.
  abbrev pub Short : ℕ → Launches W → Type 0
  Short m s = s.pod.sleeping_count < tally captive s.phase m

module _ {ℓ} {W : Type ℓ} ⦃d : Double W⦄ (h : Host) where
  -- While the mutex is held and more threads are captive than counted as sleeping, the thread that waits on
  -- `sleeping_count_cond` goes back to its wait.
  resume-fails :
      (m : ℕ) (s : Launches W)
      → Counted s
      → Short m s
      → ltb s.pod.sleeping_count s.pod.kernel_launch_count ≡ true
  resume-fails m s (n, beyond, counted) short =
      let wide : count s.phase (m + n) ≡ count s.phase n = count-extend s.phase n m beyond in
      let part = tally-extend captive s.phase m n in
      let turned : tally captive s.phase (n + m) ≡ tally captive s.phase (m + n) =
        ap (tally captive s.phase) (omega arith) in
      let few = captives-count s.phase (m + n) in
      let less : s.pod.sleeping_count < s.pod.kernel_launch_count =
        omega (arith, wide, part, turned, few, counted, short) in
      ground arith

  -- The mutex is held, every stopped thread is where it was, and the captives are still too many.
  abbrev pub Frozen : ℕ → Launches W → Launches W → Type 0
  Frozen m s t =
      (t.held ≡ true)
      × ((i : ℕ) → is_stopped (s.phase i) ≡ true → t.phase i ≡ s.phase i)
      × Short m t

  LaunchStep-Frozen :
      (m : ℕ) {s t : Launches W}
      → LaunchStep h s t
      → Counted s
      → s.held ≡ true
      → Short m s
      → Frozen m s t
  unfolding enter_launch await_response resume_request
  LaunchStep-Frozen m (enters {s} i at) v held short = (
    held,
    (λ j stop. set-other i gate s.phase j (rw at refl) stop),
    Short-set i gate s.phase m s.pod.sleeping_count (rw at (omega arith)) short,
  )
  LaunchStep-Frozen m (tests i at free) v held short = absurd (ground (arith, held, free))
  LaunchStep-Frozen m (answers {s} i sockfd now overuse burst {p = p} at run) v held short = (
    held,
    (λ j stop. set-other i outside s.phase j (rw at refl) stop),
    rw (check_quota-sleeping h sockfd now overuse burst s.pod run)
        (Short-set i outside s.phase m s.pod.sleeping_count (rw at (omega arith)) short),
  )
  LaunchStep-Frozen m (asks i sockfd now overuse burst at free run) v held short =
      absurd (ground (arith, held, free))
  LaunchStep-Frozen m (announces i req_id at) v held short = (held, (λ j stop. refl), short)
  LaunchStep-Frozen m (takes {s} i req_id now at run) v held short = (
    held,
    (λ j stop. set-other i taken s.phase j (rw at refl) stop),
    rw (take_response-sleeping req_id now (await_response 0 s.pod) run)
        (Short-set i taken s.phase m s.pod.sleeping_count (rw at (omega arith)) short),
  )
  LaunchStep-Frozen m (retries i req_id now at run) v held short = (held, (λ j stop. refl), short)
  LaunchStep-Frozen m (finishes i at free run) v held short = absurd (ground (arith, held, free))
  LaunchStep-Frozen m (blocks i at free run) v held short = absurd (ground (arith, held, free))
  LaunchStep-Frozen m (resumes {s} i at run) v held short =
      let again = resume-fails m s v short in let bad = rw again at run in cc bad
  LaunchStep-Frozen m (sends {s}) v held short =
      (held, (λ j stop. refl), rw (send_request-sleeping s.pod) short)
  LaunchStep-Frozen m (receives {s} buf run) v held short =
      (held, (λ j stop. refl), rw (receive_response-sleeping buf s.pod run) short)

  run-Frozen :
      (m : ℕ) {s t : Launches W}
      → LaunchRun h s t
      → Counted s
      → s.held ≡ true
      → Short m s
      → Frozen m s t
  run-Frozen m begun v held short = (held, (λ i stop. refl), short)
  run-Frozen m (then_step {s} {t} run step) v held short =
      let (still, before, short') = run-Frozen m run v held short in
      let (now, after, short'') =
        LaunchStep-Frozen m step (LaunchRun-Counted h run v) still short' in
      (now, (λ i stop. after i (rw (before i stop) stop) ∙ before i stop), short'')

  -- If in a state that the threads reach one of them holds `quota_state_mutex` in its wait on
  -- `sleeping_count_cond` while another one is before its test of `quota_state`, waits for a response or
  -- has one, then nothing ends that wait, also when the thread wakes up by itself and tests its loop
  -- again: the mutex stays held, and every thread that is before its test, asleep, has its response or
  -- waits on `sleeping_count_cond` stays there. At the start `kernel_launch_count` and `sleeping_count`
  -- are the numbers of the threads in the function and of those that sleep, and at most one thread waits
  -- on `sleeping_count_cond`, none while the mutex is free.
  pub LaunchRun-Frozen :
      (j : ℕ) {start s t : Launches W}
      → Counted start
      → Slept start
      → LaunchRun h start s
      → s.held ≡ true
      → sleeping (s.phase j) < captive (s.phase j)
      → LaunchRun h s t
      → (t.held ≡ true) × ((i : ℕ) → is_stopped (s.phase i) ≡ true → t.phase i ≡ s.phase i)
  LaunchRun-Frozen j {start} {s} v slept before held late run =
      let at = LaunchRun-Slept h before slept in
      let m = suc j + at.bound in
      let more =
        tally-lt sleeping captive s.phase s.phase m j (λ k. sleeping-captive (s.phase k))
          (omega arith) late in
      let part = tally-Beyond s.phase at.bound (suc j) at.beyond in
      let (now, same, _) =
        run-Frozen m run (LaunchRun-Counted h before v) held
          (omega (arith, more, part, at.counted)) in
      (now, same)
