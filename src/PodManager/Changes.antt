-- ===== src/PodManager/Changes.antt =====
-- What the parts of `hook_kernel_launch` and the scheduler threads of src/pod-manager.cpp do to
-- `kernel_launch_count`.

use fa_st_manager.Comm.Buffer.{get_msg_data}
use mathlib.Core.Path.{subst}
use fa_st_manager.Predictor.Period.{ms_between}
use fa_st_manager.Comm.Message.{
  Host, prepare_request, parse_response, req_msg_len, req_quota, rsp_msg_len,
}
use fa_st_manager.Common.Int.{ℤ}
use fa_st_manager.PodManager.Threads.{receive_response, send_request, send_front}
use fa_st_manager.PodManager.State.{Pod, insert_new}
use fa_st_manager.Double.{Double, nought}
use mathlib.Core.Option.{some-injective}
use fa_st_manager.PodManager.Launch.{
  answered, asked, Launched, request_quota, check_quota, take_response, finish_request,
  resume_request, leave_launch, noted, pass_gate, max_burst,
}
use fa_st_manager.Common.{
  ℕ, List, [], ◌∷◌, none, some, refl, ◌+◌, ◌≡◌, arith, ◌==◌, ap, ◌-◌, Bool-cases, inl, >>=-eq-some,
  inr, Option-cases, ltb, replicate, lookup, sym, if◌then◌else◌, erase, take, nat_eq, ◌++◌, drop,
}

module _ {ℓ} {W : Type ℓ} ⦃d : Double W⦄ where
  abbrev pub after : ℕ → Launched W → ℕ
  after n (answered remain) = n - 1
  after n (asked req_id) = n

  abbrev pending : ℕ × Pod W → Launched W × Pod W
  pending out = (asked out.0, out.1)

  pub request_quota-count :
      (h : Host) (p : Pod W) {id : ℕ} {q : Pod W}
      → request_quota h p ≡ some (id, q)
      → q.kernel_launch_count ≡ p.kernel_launch_count
  unfolding request_quota
  request_quota-count h p run =
      let (out, _, end) =
        >>=-eq-some
          (prepare_request h p.statics (replicate req_msg_len 0) (
            req_quota (d.to_bits p.pod_overuse_ms)
              (d.to_bits (max_burst p.client_burst_map nought))))
          (λ out. some (
            out.0,
            record p {
              quota_state = 1;
              request_queue = p.request_queue ++ ((out.0, out.1) ∷ []);
              statics = out.2;
            },
          ))
          run in
      sym (ap (λ r. r.1.kernel_launch_count) (some-injective _ _ end))

  pub check_quota-count :
      (h : Host) (sockfd : ℕ) (now : ℤ) (overuse burst : W) (p : Pod W) {l : Launched W} {q : Pod W}
      → check_quota h sockfd now overuse burst p ≡ some (l, q)
      → q.kernel_launch_count ≡ after p.kernel_launch_count l
  unfolding check_quota leave_launch
  check_quota-count h sockfd now overuse burst p {l} {q} run =
      let noted_p = noted sockfd overuse burst p in
      elim (Bool-cases (d.lt p.pod_quota (d.plus (ms_between now p.quota_updated_tp) burst))) [
        | inl over ↦
            let (out, made, end) =
              >>=-eq-some (request_quota h noted_p) (λ out. some (pending out)) (rw over at run) in
            subst
              (λ (r : Launched W × Pod W).
                r.1.kernel_launch_count ≡ after p.kernel_launch_count r.0)
              (some-injective _ _ end) (request_quota-count h noted_p made)
        | inr under ↦
            subst
              (λ (r : Launched W × Pod W).
                r.1.kernel_launch_count ≡ after p.kernel_launch_count r.0)
              (some-injective _ _ (rw under at run)) refl
      ]

  pub take_response-count :
      (id : ℕ) (now : ℤ) (p : Pod W) {q : Pod W}
      → take_response id now p ≡ some q
      → q.kernel_launch_count ≡ p.kernel_launch_count
  unfolding take_response
  take_response-count id now p run = elim (Option-cases (lookup id p.response_map)) [
    | inl e ↦ let bad = rw e at run in cc bad
    | inr (bytes, e) ↦
        let (quota, _, end) =
          >>=-eq-some (get_msg_data 8 bytes 0)
            (λ quota. some (record p {
              pod_quota = d.of_bits quota.0;
              quota_updated_tp = now;
              pod_overuse_ms = nought;
              response_map = erase id p.response_map;
            }))
            (rw e at run) in
        sym (ap (λ r. r.kernel_launch_count) (some-injective _ _ end))
  ]

  pub finish_request-count :
      (p : Pod W) {remain : W} {q : Pod W}
      → finish_request p ≡ some (remain, q)
      → q.kernel_launch_count ≡ p.kernel_launch_count - 1
  unfolding finish_request leave_launch
  finish_request-count p run =
      elim (Bool-cases (ltb (p.sleeping_count + 1) p.kernel_launch_count)) [
        | inl e ↦ let bad = rw e at run in cc bad
        | inr e ↦ sym (ap (λ r. r.1.kernel_launch_count) (some-injective _ _ (rw e at run)))
      ]

  pub resume_request-count :
      (p : Pod W) {remain : W} {q : Pod W}
      → resume_request p ≡ some (remain, q)
      → q.kernel_launch_count ≡ p.kernel_launch_count - 1
  unfolding resume_request leave_launch
  resume_request-count p run = elim (Bool-cases (ltb p.sleeping_count p.kernel_launch_count)) [
    | inl e ↦ let bad = rw e at run in cc bad
    | inr e ↦ sym (ap (λ r. r.1.kernel_launch_count) (some-injective _ _ (rw e at run)))
  ]

  pub receive_response-count :
      (buf : List ℕ) (p : Pod W) {q : Pod W}
      → receive_response buf p ≡ some q
      → q.kernel_launch_count ≡ p.kernel_launch_count
  unfolding receive_response
  receive_response-count buf p run =
      let (head, _, rest) =
        >>=-eq-some (parse_response buf)
          (λ head.
            if p.scheduler_recv_sync == 0
            then none
            else some (record p {
              response_map =
                  insert_new head.0 (take (rsp_msg_len - 4) (drop head.1 buf)) p.response_map;
            }))
          run in
      elim (Bool-cases (p.scheduler_recv_sync == 0)) [
        | inl e ↦ let bad = rw e at rest in cc bad
        | inr e ↦ sym (ap (λ r. r.kernel_launch_count) (some-injective _ _ (rw e at rest)))
      ]

  pub send_front-count :
      (q : List (ℕ × List ℕ)) (p : Pod W)
      → (send_front q p).1.kernel_launch_count ≡ p.kernel_launch_count
  send_front-count [] p = refl
  send_front-count (r ∷ q) p = refl

  pub send_request-count :
      (p : Pod W) → (send_request p).1.kernel_launch_count ≡ p.kernel_launch_count
  unfolding send_request
  send_request-count p = send_front-count p.request_queue p

  pub tests-count : (p : Pod W) → (pass_gate p).1.kernel_launch_count ≡ p.kernel_launch_count
  unfolding pass_gate
  tests-count p = ground arith
