-- ===== src/PodManager/Inside.antt =====
-- The count `kernel_launch_count` of src/pod-manager.cpp and the threads in `hook_kernel_launch`.
use fa_st_manager.PodManager.Counts.{
  Beyond, count-woken, count-alone, count, inside-tested, count-extend, count-set, count-ge, inside,
}
use fa_st_manager.Comm.Message.{Host}
use fa_st_manager.PodManager.Threads.{send_request}
use fa_st_manager.PodManager.State.{Pod}
use fa_st_manager.Double.{Double, nought}
use fa_st_manager.PodManager.Launches.{
  outside, gate, asleep, passed, waiting, taken, blocked, Phase, Launches, LaunchStep, LaunchRun,
  woken, move, enters, tests, answers, asks, announces, takes, retries, finishes, blocks, resumes,
  sends, receives, begun, then_step, sleepless, set,
}
use fa_st_manager.PodManager.Launch.{
  finish_request, leave_launch, pass_gate, enter_launch, await_response,
}
use fa_st_manager.Common.{
  ℕ, true, false, refl, suc, ◌+◌, ◌≡◌, ◌≤◌, arith, ◌==◌, ap, ◌-◌, ltb, ◌∙◌, ◌≢◌, sym, if◌then◌else◌,
  nat_eq,
}
use fa_st_manager.PodManager.Changes.{
  tests-count, check_quota-count, take_response-count, finish_request-count, resume_request-count,
  send_request-count, receive_response-count,
}

module _ {ℓ} {W : Type ℓ} where
  -- Some number bounds the threads that are inside, and they are as many as the count says.
  abbrev pub Counted : Launches W → Type 0
  Counted s = (n : ℕ) × Beyond s.phase n × (s.pod.kernel_launch_count ≡ count s.phase n)

  move-Counted :
      (i : ℕ) (a : Phase) (p : Pod W) (s : Launches W)
      → p.kernel_launch_count ≡ s.pod.kernel_launch_count + inside a - inside (s.phase i)
      → Counted s
      → Counted (move i a p s)
  move-Counted i a p s e (n, b, c) =
      let m = suc i + n in
      let wide : count s.phase m ≡ count s.phase n = count-extend s.phase n (suc i) b in
      (
        m,
        (λ j h. let ne : (i == j) ≡ false = ground arith in rw ne (b j (omega arith))),
        omega (
          arith,
          wide,
          count-set s.phase i m a (omega arith),
          count-ge s.phase i m (omega arith),
        ),
      )

module _ {ℓ} {W : Type ℓ} ⦃d : Double W⦄ where
  same-Counted :
      (p : Pod W) (s : Launches W)
      → p.kernel_launch_count ≡ s.pod.kernel_launch_count
      → Counted s
      → Counted (record s { pod = p })
  same-Counted p s e (n, b, c) = (n, b, e ∙ c)

  woken-Counted :
      (s : Launches W) → Counted s → Counted (record s { phase = λ j. woken (s.phase j) })
  woken-Counted s (n, b, c) = (n, (λ j h. ap woken (b j h)), c ∙ sym (count-woken s.phase n))

  LaunchStep-Counted : (h : Host) {s t : Launches W} → LaunchStep h s t → Counted s → Counted t
  unfolding enter_launch await_response
  LaunchStep-Counted h (enters {s} i at) v =
      move-Counted i gate (enter_launch s.pod) s (omega (arith, ap inside at)) v
  LaunchStep-Counted h (tests {s} i at free) v =
      let go = (pass_gate s.pod).0 in
      move-Counted i (if go then passed else asleep) (pass_gate s.pod).1 s
        (omega (arith, ap inside at, tests-count s.pod, inside-tested go)) v
  LaunchStep-Counted h (answers {s} i sockfd now overuse burst {remain} {p} at run) v =
      move-Counted i outside p s
        (omega (arith, ap inside at, check_quota-count h sockfd now overuse burst s.pod run)) v
  LaunchStep-Counted h (asks {s} i sockfd now overuse burst {req_id} {p} at free run) v =
      move-Counted i (waiting req_id) p s
        (omega (arith, ap inside at, check_quota-count h sockfd now overuse burst s.pod run)) v
  LaunchStep-Counted h (announces {s} i req_id at) v =
      same-Counted (await_response 1 s.pod) s refl v
  LaunchStep-Counted h (takes {s} i req_id now {p} at run) v =
      move-Counted i taken p s
        (omega (arith, ap inside at, take_response-count req_id now (await_response 0 s.pod) run)) v
  LaunchStep-Counted h (retries {s} i req_id now at run) v =
      same-Counted (await_response 0 s.pod) s refl v
  LaunchStep-Counted h (finishes {s} i {remain} {p} at free run) v =
      woken-Counted (move i outside p s)
        (move-Counted i outside p s (omega (arith, ap inside at, finish_request-count s.pod run)) v)
  LaunchStep-Counted h (blocks {s} i at free run) v =
      move-Counted i blocked (sleepless s.pod) s (omega (arith, ap inside at)) v
  LaunchStep-Counted h (resumes {s} i {remain} {p} at run) v =
      let (n, b, c) = woken-Counted (move i outside p s) (
        move-Counted i outside p s (omega (arith, ap inside at, resume_request-count s.pod run))
          v) in
      (n, b, c)
  LaunchStep-Counted h (sends {s}) v =
      same-Counted (send_request s.pod).1 s (send_request-count s.pod) v
  LaunchStep-Counted h (receives {s} buf {p} run) v =
      same-Counted p s (receive_response-count buf s.pod run) v

  -- From a state where it holds, in every state that the threads reach, `kernel_launch_count` is the
  -- number of the threads that are in `hook_kernel_launch`.
  pub LaunchRun-Counted : (h : Host) {s t : Launches W} → LaunchRun h s t → Counted s → Counted t
  LaunchRun-Counted h begun v = v
  LaunchRun-Counted h (then_step run step) v = LaunchStep-Counted h step (LaunchRun-Counted h run v)

  -- A launch that has its response while no other thread is in the function and the mutex is free can
  -- end: there is a step after which it is outside, `quota_state` is 0 and no launch is counted.
  pub alone_finishes :
      (h : Host) {s t : Launches W} (i : ℕ)
      → LaunchRun h s t
      → Counted s
      → t.phase i ≡ taken
      → t.held ≡ false
      → ((j : ℕ) → j ≢ i → t.phase j ≡ outside)
      → (u : Launches W) × LaunchStep h t u
        × (u.phase i ≡ outside)
        × (u.pod.quota_state ≡ 0)
        × (u.pod.kernel_launch_count ≡ 0)
  unfolding finish_request leave_launch
  alone_finishes h {s} {t} i run v at free alone =
      let (n, _, counted) = LaunchRun-Counted h run v in
      let few : t.pod.kernel_launch_count ≤ 1 =
        omega (arith, counted, count-alone t.phase i n alone) in
      let on : ltb (t.pod.sleeping_count + 1) t.pod.kernel_launch_count ≡ false = ground arith in
      let p = leave_launch (record t.pod { quota_state = 0; sleeping_count = 0 }) in
      let same : (i == i) ≡ true = ground arith in
      (
        record t { pod = p; phase = λ j. woken (set i outside t.phase j) },
        finishes i {remain = d.minus t.pod.pod_quota nought} at free (rw on refl),
        rw same refl,
        refl,
        omega arith,
      )
