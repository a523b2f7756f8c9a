-- ===== src/PodManager/Sleepers.antt =====
-- The count `sleeping_count` of src/pod-manager.cpp, and sums over the threads in `hook_kernel_launch`.
use mathlib.Core.Option.{some-injective}
use mathlib.Core.Path.{subst}
use native.Mathlib.Decide.{ℕ_discrete}
use fa_st_manager.Comm.Buffer.{get_msg_data}
use fa_st_manager.Comm.Message.{Host, parse_response, prepare_request, req_msg_len, req_quota}
use fa_st_manager.Common.{
  ℕ, zero, suc, ◌+◌, ◌≡◌, ◌<◌, ◌≤◌, ◌==◌, refl, sym, ap, true, false, List, [], ◌∷◌, some, arith,
  Bool-cases, Option-cases, inl, inr, >>=-eq-some, lookup, replicate, nat_eq,
}
use fa_st_manager.Common.Int.{ℤ}
use fa_st_manager.Double.{Double, nought}
use fa_st_manager.PodManager.Launch.{
  Launched, check_quota, leave_launch, max_burst, noted, request_quota, take_response,
}
use fa_st_manager.PodManager.Counts.{Beyond, count, inside}
use fa_st_manager.PodManager.Launches.{
  Phase, set, outside, gate, asleep, passed, waiting, taken, blocked,
}
use fa_st_manager.PodManager.State.{Pod}
use fa_st_manager.PodManager.Threads.{receive_response, send_front, send_request}
use fa_st_manager.Predictor.Period.{ms_between}

-- The sum of a weight over the first `n` threads.
abbrev pub tally : (Phase → ℕ) → (ℕ → Phase) → ℕ → ℕ
tally w f zero = 0
tally w f (suc n) = w (f n) + tally w f n

pub tally-le :
    (w v : Phase → ℕ) (f g : ℕ → Phase) (n : ℕ)
    → ((j : ℕ) → w (f j) ≤ v (g j))
    → tally w f n ≤ tally v g n
tally-le w v f g zero h = omega arith
tally-le w v f g (suc n) h = omega (arith, h n, tally-le w v f g n h)

pub tally-lt :
    (w v : Phase → ℕ) (f g : ℕ → Phase) (n j : ℕ)
    → ((k : ℕ) → w (f k) ≤ v (g k))
    → j < n
    → w (f j) < v (g j)
    → tally w f n < tally v g n
tally-lt w v f g zero j h below less = absurd (omega arith)
tally-lt w v f g (suc n) j h below less = elim (ℕ_discrete j n) [
  | yes e ↦
      let here : w (f n) < v (g n) = subst (λ k. w (f k) < v (g k)) e less in
      omega (arith, here, tally-le w v f g n h)
  | no e ↦ omega (arith, h n, tally-lt w v f g n j h (omega arith) less)
]

pub tally-extend : (w : Phase → ℕ) (f : ℕ → Phase) (m k : ℕ) → tally w f m ≤ tally w f (k + m)
tally-extend w f m zero = let e : 0 + m ≡ m = omega arith in rw e (omega arith)
tally-extend w f m (suc k) =
    let e : suc k + m ≡ suc (k + m) = omega arith in rw e (omega (arith, tally-extend w f m k))

pub tally-ge : (w : Phase → ℕ) (f : ℕ → Phase) (i n : ℕ) → i < n → w (f i) ≤ tally w f n
tally-ge w f i zero h = absurd (omega arith)
tally-ge w f i (suc n) h = elim (ℕ_discrete i n) [
  | yes e ↦ rw e (omega arith)
  | no e ↦ omega (arith, tally-ge w f i n (omega arith))
]

tally-set_beyond :
    (w : Phase → ℕ) (f : ℕ → Phase) (i n : ℕ) (a : Phase)
    → n ≤ i
    → tally w (set i a f) n ≡ tally w f n
tally-set_beyond w f i zero a h = refl
tally-set_beyond w f i (suc n) a h =
    let ne : (i == n) ≡ false = ground arith in
    rw ne (ap (◌+◌ (w (f n))) (tally-set_beyond w f i n a (omega arith)))

pub tally-set :
    (w : Phase → ℕ) (f : ℕ → Phase) (i n : ℕ) (a : Phase)
    → i < n
    → tally w (set i a f) n + w (f i) ≡ tally w f n + w a
tally-set w f i zero a h = absurd (omega arith)
tally-set w f i (suc n) a h = elim (ℕ_discrete i n) [
  | yes e ↦
      let same : (i == n) ≡ true = ground arith in
      rw same (omega (arith, tally-set_beyond w f i n a (omega arith), ap (λ j. w (f j)) e))
  | no e ↦
      let ne : (i == n) ≡ false = ground arith in
      rw ne (omega (arith, tally-set w f i n a (omega arith)))
]

pub tally-none : (w : Phase → ℕ) (f : ℕ → Phase) (n : ℕ) → ((j : ℕ) → w (f j) ≡ 0) → tally w f n ≡ 0
tally-none w f zero h = refl
tally-none w f (suc n) h = omega (arith, h n, tally-none w f n h)

-- A thread that cannot leave the function while `quota_state_mutex` is held by another one.
abbrev pub captive : Phase → ℕ
captive outside = 0
captive gate = 1
captive asleep = 1
captive passed = 0
captive (waiting req_id) = 1
captive taken = 1
captive blocked = 1

-- A thread that `sleeping_count` counts.
abbrev pub sleeping : Phase → ℕ
sleeping outside = 0
sleeping gate = 0
sleeping asleep = 1
sleeping passed = 0
sleeping (waiting req_id) = 0
sleeping taken = 0
sleeping blocked = 1

pub sleeping-captive : (a : Phase) → sleeping a ≤ captive a
sleeping-captive outside = omega arith
sleeping-captive gate = omega arith
sleeping-captive asleep = omega arith
sleeping-captive passed = omega arith
sleeping-captive (waiting req_id) = omega arith
sleeping-captive taken = omega arith
sleeping-captive blocked = omega arith

captive-inside : (a : Phase) → captive a ≤ inside a
captive-inside outside = omega arith
captive-inside gate = omega arith
captive-inside asleep = omega arith
captive-inside passed = omega arith
captive-inside (waiting req_id) = omega arith
captive-inside taken = omega arith
captive-inside blocked = omega arith

pub captives-count : (f : ℕ → Phase) (n : ℕ) → tally captive f n ≤ count f n
captives-count f zero = omega arith
captives-count f (suc n) = omega (arith, captive-inside (f n), captives-count f n)

pub tally-Beyond :
    (f : ℕ → Phase) (n k : ℕ) → Beyond f n → tally sleeping f (k + n) ≡ tally sleeping f n
tally-Beyond f n zero b = ap (tally sleeping f) (omega arith)
tally-Beyond f n (suc k) b =
    let e : suc k + n ≡ suc (k + n) = omega arith in
    rw e (omega (arith, ap sleeping (b (k + n) (omega arith)), tally-Beyond f n k b))

module _ {ℓ} {W : Type ℓ} ⦃d : Double W⦄ where
  request_quota-sleeping :
      (h : Host) (p : Pod W) {id : ℕ} {q : Pod W}
      → request_quota h p ≡ some (id, q)
      → q.sleeping_count ≡ p.sleeping_count
  unfolding request_quota
  request_quota-sleeping h p run =
      let (out, _, end) =
        >>=-eq-some
          (prepare_request h p.statics (replicate req_msg_len 0) (
            req_quota (d.to_bits p.pod_overuse_ms)
              (d.to_bits (max_burst p.client_burst_map nought))))
          _ run in
      sym (ap (λ r. r.1.sleeping_count) (some-injective _ _ end))

  pub check_quota-sleeping :
      (h : Host) (sockfd : ℕ) (now : ℤ) (overuse burst : W) (p : Pod W) {l : Launched W} {q : Pod W}
      → check_quota h sockfd now overuse burst p ≡ some (l, q)
      → q.sleeping_count ≡ p.sleeping_count
  unfolding check_quota leave_launch
  check_quota-sleeping h sockfd now overuse burst p {l} {q} run =
      let noted_p = noted sockfd overuse burst p in
      elim (Bool-cases (d.lt p.pod_quota (d.plus (ms_between now p.quota_updated_tp) burst))) [
        | inl over ↦
            let (out, made, end) = >>=-eq-some (request_quota h noted_p) _ (rw over at run) in
            subst (λ (r : Launched W × Pod W). r.1.sleeping_count ≡ p.sleeping_count)
              (some-injective _ _ end) (request_quota-sleeping h noted_p made)
        | inr under ↦
            subst (λ (r : Launched W × Pod W). r.1.sleeping_count ≡ p.sleeping_count)
              (some-injective _ _ (rw under at run)) refl
      ]

  pub take_response-sleeping :
      (id : ℕ) (now : ℤ) (p : Pod W) {q : Pod W}
      → take_response id now p ≡ some q
      → q.sleeping_count ≡ p.sleeping_count
  unfolding take_response
  take_response-sleeping id now p run = elim (Option-cases (lookup id p.response_map)) [
    | inl e ↦ let bad = rw e at run in cc bad
    | inr (bytes, e) ↦
        let (quota, _, end) = >>=-eq-some (get_msg_data 8 bytes 0) _ (rw e at run) in
        sym (ap (λ r. r.sleeping_count) (some-injective _ _ end))
  ]

  pub receive_response-sleeping :
      (buf : List ℕ) (p : Pod W) {q : Pod W}
      → receive_response buf p ≡ some q
      → q.sleeping_count ≡ p.sleeping_count
  unfolding receive_response
  receive_response-sleeping buf p run =
      let (head, _, rest) = >>=-eq-some (parse_response buf) _ run in
      elim (Bool-cases (p.scheduler_recv_sync == 0)) [
        | inl e ↦ let bad = rw e at rest in cc bad
        | inr e ↦ sym (ap (λ r. r.sleeping_count) (some-injective _ _ (rw e at rest)))
      ]

  send_front-sleeping :
      (q : List (ℕ × List ℕ)) (p : Pod W) → (send_front q p).1.sleeping_count ≡ p.sleeping_count
  send_front-sleeping [] p = refl
  send_front-sleeping (r ∷ q) p = refl

  pub send_request-sleeping : (p : Pod W) → (send_request p).1.sleeping_count ≡ p.sleeping_count
  unfolding send_request
  send_request-sleeping p = send_front-sleeping p.request_queue p
