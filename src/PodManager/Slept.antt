-- ===== src/PodManager/Slept.antt =====
-- The count `sleeping_count` of src/pod-manager.cpp and the threads that sleep.
use native.Mathlib.Decide.{ℕ_discrete}
use mathlib.Core.Option.{some-injective}
use fa_st_manager.PodManager.Counts.{Beyond}
use fa_st_manager.PodManager.Launch.{
  await_response, enter_launch, finish_request, leave_launch, pass_gate, resume_request,
}
use fa_st_manager.PodManager.Launches.{
  outside, gate, asleep, passed, waiting, taken, blocked, Phase, Launches, LaunchStep, LaunchRun,
  move, set, sleepless, woken, enters, tests, answers, asks, announces, takes, retries, finishes,
  blocks, resumes, sends, receives, begun, then_step,
}
use fa_st_manager.PodManager.Sleepers.{
  check_quota-sleeping, receive_response-sleeping, send_request-sleeping, sleeping,
  take_response-sleeping, tally, tally-Beyond, tally-ge, tally-none, tally-set,
}
use fa_st_manager.PodManager.State.{Pod}
use fa_st_manager.PodManager.Threads.{send_request}
use fa_st_manager.Comm.Message.{Host}
use fa_st_manager.Double.{Double}
use fa_st_manager.Common.{
  ℕ, suc, ◌+◌, ◌-◌, ◌==◌, ◌≡◌, ◌∙◌, refl, sym, ap, true, false, Bool, some, arith, ltb,
  if◌then◌else◌, Bool-cases, inl, inr, nat_eq,
}

abbrev pub is_blocked : Phase → Bool
is_blocked outside = false
is_blocked gate = false
is_blocked asleep = false
is_blocked passed = false
is_blocked (waiting req_id) = false
is_blocked taken = false
is_blocked blocked = true

blocked-woken : (a : Phase) → is_blocked (woken a) ≡ is_blocked a
blocked-woken outside = refl
blocked-woken gate = refl
blocked-woken asleep = refl
blocked-woken passed = refl
blocked-woken (waiting req_id) = refl
blocked-woken taken = refl
blocked-woken blocked = refl

sleeping-woken : (a : Phase) → is_blocked a ≡ false → sleeping (woken a) ≡ 0
sleeping-woken outside h = refl
sleeping-woken gate h = refl
sleeping-woken asleep h = refl
sleeping-woken passed h = refl
sleeping-woken (waiting req_id) h = refl
sleeping-woken taken h = refl
sleeping-woken blocked h = absurd (ground (arith, h))

blocked-set :
    (i : ℕ) (a : Phase) (f : ℕ → Phase)
    → is_blocked a ≡ is_blocked (f i)
    → (j : ℕ) → is_blocked (set i a f j) ≡ is_blocked (f j)
blocked-set i a f h j = elim (ℕ_discrete i j) [
  | yes e ↦ let same : (i == j) ≡ true = ground arith in rw same (h ∙ ap (λ k. is_blocked (f k)) e)
  | no e ↦ let ne : (i == j) ≡ false = ground arith in rw ne refl
]

tested-blocked : (b : Bool) → is_blocked (if b then passed else asleep) ≡ false
tested-blocked true = refl
tested-blocked false = refl

module _ {ℓ} {W : Type ℓ} where
  -- `sleeping_count` is the number of the threads that sleep, and at most one thread waits on
  -- `sleeping_count_cond`, none while the mutex is free.
  pub record Slept (s : Launches W) : Type 0 where
    pub bound : ℕ
    pub beyond : Beyond s.phase bound
    pub counted : s.pod.sleeping_count ≡ tally sleeping s.phase bound
    pub none_blocked : s.held ≡ false → (j : ℕ) → is_blocked (s.phase j) ≡ false
    pub one_blocked :
        (i j : ℕ) → is_blocked (s.phase i) ≡ true → is_blocked (s.phase j) ≡ true → i ≡ j

  move-Slept :
      (i : ℕ) (a : Phase) (p : Pod W) (s : Launches W)
      → p.sleeping_count ≡ s.pod.sleeping_count + sleeping a - sleeping (s.phase i)
      → is_blocked a ≡ is_blocked (s.phase i)
      → Slept s
      → Slept (move i a p s)
  move-Slept i a p s e b v =
      let n = v.bound in
      let m = suc i + n in
      let wide : tally sleeping s.phase m ≡ tally sleeping s.phase n =
        tally-Beyond s.phase n (suc i) v.beyond in
      let same = blocked-set i a s.phase b in
      record {
        bound = m;
        beyond =
            λ j h. let ne : (i == j) ≡ false = ground arith in rw ne (v.beyond j (omega arith));
        counted = omega (
          arith,
          e,
          v.counted,
          wide,
          tally-set sleeping s.phase i m a (omega arith),
          tally-ge sleeping s.phase i m (omega arith),
        );
        none_blocked = λ free j. same j ∙ v.none_blocked free j;
        one_blocked = λ j k hj hk. v.one_blocked j k (sym (same j) ∙ hj) (sym (same k) ∙ hk);
      }

  same-Slept :
      (p : Pod W) (s : Launches W)
      → p.sleeping_count ≡ s.pod.sleeping_count
      → Slept s
      → Slept (record s { pod = p })
  same-Slept p s e v = record {
    bound = v.bound;
    beyond = v.beyond;
    counted = e ∙ v.counted;
    none_blocked = v.none_blocked;
    one_blocked = v.one_blocked;
  }

  -- All threads wake up, and none waits on `sleeping_count_cond`.
  woken-Slept :
      (p : Pod W) (b : Bool) (i n : ℕ) (s : Launches W)
      → p.sleeping_count ≡ 0
      → Beyond s.phase n
      → ((j : ℕ) → is_blocked (set i outside s.phase j) ≡ false)
      → Slept (record { pod = p; held = b; phase = λ j. woken (set i outside s.phase j) })
  woken-Slept p b i n s e beyond quiet = record {
    bound = suc i + n;
    beyond = λ j h.
        let ne : (i == j) ≡ false = ground arith in rw ne (ap woken (beyond j (omega arith)));
    counted =
        e
        ∙ sym (
            tally-none sleeping (λ j. woken (set i outside s.phase j)) (suc i + n)
              (λ j. sleeping-woken (set i outside s.phase j) (quiet j)));
    none_blocked = λ free j. blocked-woken (set i outside s.phase j) ∙ quiet j;
    one_blocked =
        λ j k hj hk. absurd (ground (arith, hj, blocked-woken (set i outside s.phase j), quiet j));
  }

module _ {ℓ} {W : Type ℓ} ⦃d : Double W⦄ where
  finish_request-sleeping :
      (p : Pod W) {remain : W} {q : Pod W}
      → finish_request p ≡ some (remain, q)
      → q.sleeping_count ≡ 0
  unfolding finish_request leave_launch
  finish_request-sleeping p run =
      elim (Bool-cases (ltb (p.sleeping_count + 1) p.kernel_launch_count)) [
        | inl e ↦ let bad = rw e at run in cc bad
        | inr e ↦ sym (ap (λ r. r.1.sleeping_count) (some-injective _ _ (rw e at run)))
      ]

  resume_request-sleeping :
      (p : Pod W) {remain : W} {q : Pod W}
      → resume_request p ≡ some (remain, q)
      → q.sleeping_count ≡ 0
  unfolding resume_request leave_launch
  resume_request-sleeping p run = elim (Bool-cases (ltb p.sleeping_count p.kernel_launch_count)) [
    | inl e ↦ let bad = rw e at run in cc bad
    | inr e ↦ sym (ap (λ r. r.1.sleeping_count) (some-injective _ _ (rw e at run)))
  ]

  pass_gate-sleeping :
      (p : Pod W)
      → let (go, q) = pass_gate p in
        q.sleeping_count ≡ p.sleeping_count + sleeping (if go then passed else asleep)
  unfolding pass_gate
  pass_gate-sleeping p = elim (Bool-cases (p.quota_state == 0)) [
    | inl e ↦ rw e (omega arith)
    | inr e ↦ rw e refl
  ]

  -- The thread takes the mutex with it into its wait.
  blocks-Slept :
      (i : ℕ) (s : Launches W)
      → s.phase i ≡ taken
      → s.held ≡ false
      → Slept s
      → Slept (record (move i blocked (sleepless s.pod) s) { held = true })
  blocks-Slept i s at free v =
      let n = v.bound in
      let m = suc i + n in
      let wide : tally sleeping s.phase m ≡ tally sleeping s.phase n =
        tally-Beyond s.phase n (suc i) v.beyond in
      let only : (j : ℕ) → is_blocked (set i blocked s.phase j) ≡ true → i ≡ j = λ j h.
        elim (ℕ_discrete i j) [
          | yes e ↦ e
          | no e ↦
              let ne : (i == j) ≡ false = ground arith in
              let h' : is_blocked (s.phase j) ≡ true = rw ne at h in
              absurd (ground (arith, h', v.none_blocked free j))
        ] in
      record {
        bound = m;
        beyond =
            λ j h. let ne : (i == j) ≡ false = ground arith in rw ne (v.beyond j (omega arith));
        counted = omega (
          arith,
          v.counted,
          wide,
          tally-set sleeping s.phase i m blocked (omega arith),
          ap sleeping at,
        );
        none_blocked = λ held j. absurd (ground (arith, held));
        one_blocked = λ j k hj hk. sym (only j hj) ∙ only k hk;
      }

  finished-quiet :
      (i : ℕ) (s : Launches W)
      → s.held ≡ false
      → Slept s
      → (j : ℕ) → is_blocked (set i outside s.phase j) ≡ false
  finished-quiet i s free v j =
      blocked-set i outside s.phase (sym (v.none_blocked free i)) j ∙ v.none_blocked free j

  resumed-quiet :
      (i : ℕ) (s : Launches W)
      → s.phase i ≡ blocked
      → Slept s
      → (j : ℕ) → is_blocked (set i outside s.phase j) ≡ false
  resumed-quiet i s at v j = elim (ℕ_discrete i j) [
    | yes e ↦ let same : (i == j) ≡ true = ground arith in rw same refl
    | no e ↦
        let ne : (i == j) ≡ false = ground arith in
        elim (Bool-cases (is_blocked (s.phase j))) [
          | inl b ↦ absurd (e (v.one_blocked i j (rw at refl) b))
          | inr b ↦ rw ne b
        ]
  ]

  LaunchStep-Slept : (h : Host) {s t : Launches W} → LaunchStep h s t → Slept s → Slept t
  unfolding enter_launch await_response
  LaunchStep-Slept h (enters {s} i at) v =
      move-Slept i gate (enter_launch s.pod) s (omega (arith, ap sleeping at)) (rw at refl) v
  LaunchStep-Slept h (tests {s} i at free) v =
      let go = (pass_gate s.pod).0 in
      move-Slept i (if go then passed else asleep) (pass_gate s.pod).1 s
        (omega (arith, ap sleeping at, pass_gate-sleeping s.pod))
        (tested-blocked go ∙ sym (ap is_blocked at)) v
  LaunchStep-Slept h (answers {s} i sockfd now overuse burst {p = p} at run) v =
      move-Slept i outside p s
        (omega (arith, ap sleeping at, check_quota-sleeping h sockfd now overuse burst s.pod run))
        (rw at refl) v
  LaunchStep-Slept h (asks {s} i sockfd now overuse burst {req_id} {p} at free run) v =
      move-Slept i (waiting req_id) p s
        (omega (arith, ap sleeping at, check_quota-sleeping h sockfd now overuse burst s.pod run))
        (rw at refl) v
  LaunchStep-Slept h (announces {s} i req_id at) v = same-Slept (await_response 1 s.pod) s refl v
  LaunchStep-Slept h (takes {s} i req_id now {p} at run) v =
      move-Slept i taken p s
        (omega
          (arith, ap sleeping at, take_response-sleeping req_id now (await_response 0 s.pod) run))
        (rw at refl) v
  LaunchStep-Slept h (retries {s} i req_id now at run) v =
      same-Slept (await_response 0 s.pod) s refl v
  LaunchStep-Slept h (finishes {s} i {p = p} at free run) v =
      woken-Slept p s.held i v.bound s (finish_request-sleeping s.pod run) v.beyond
        (finished-quiet i s free v)
  LaunchStep-Slept h (blocks {s} i at free run) v = blocks-Slept i s at free v
  LaunchStep-Slept h (resumes {s} i {p = p} at run) v =
      woken-Slept p false i v.bound s (resume_request-sleeping s.pod run) v.beyond
        (resumed-quiet i s at v)
  LaunchStep-Slept h (sends {s}) v =
      same-Slept (send_request s.pod).1 s (send_request-sleeping s.pod) v
  LaunchStep-Slept h (receives {s} buf {p} run) v =
      same-Slept p s (receive_response-sleeping buf s.pod run) v

  pub LaunchRun-Slept : (h : Host) {s t : Launches W} → LaunchRun h s t → Slept s → Slept t
  LaunchRun-Slept h begun v = v
  LaunchRun-Slept h (then_step run step) v = LaunchStep-Slept h step (LaunchRun-Slept h run v)
