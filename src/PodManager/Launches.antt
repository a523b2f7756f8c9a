-- ===== src/PodManager/Launches.antt =====
-- The hook threads in `hook_kernel_launch` of src/pod-manager.cpp as steps on one state. A step takes a
-- thread from one wait to the next. The mutex `quota_state_mutex` is held from one step to the next only
-- by a thread that waits on `sleeping_count_cond`; nobody signals that, so the thread tests its loop again
-- only when it wakes up by itself, as POSIX allows at any time.
use fa_st_manager.PodManager.Launch.{
  finish_request, resume_request, take_response, await_response, check_quota, enter_launch,
  pass_gate, answered, asked,
}
use fa_st_manager.PodManager.Threads.{send_request, receive_response}
use fa_st_manager.Common.Int.{ℤ}
use fa_st_manager.Comm.Message.{Host}
use fa_st_manager.PodManager.State.{Pod}
use fa_st_manager.Double.{Double}
use fa_st_manager.Common.{ℕ, List, none, some, true, false, if◌then◌else◌, Bool, ◌==◌, ◌+◌, ◌≡◌}

-- Where a thread is.
pub data Phase : Type 0 where
  outside : Phase  -- not in the function
  gate : Phase  -- before the test of `quota_state`
  asleep : Phase  -- in the wait on `quota_state_cond`
  passed : Phase  -- after the loop on `quota_state`
  waiting : (req_id : ℕ) → Phase  -- for the response to its request
  taken : Phase  -- with its response
  blocked : Phase  -- in the wait on `sleeping_count_cond`

-- The threads by number.
pub record Launches {ℓ} (W : Type ℓ) : Type ℓ where
  pub pod : Pod W
  pub held : Bool
  pub phase : ℕ → Phase

abbrev pub set : ℕ → Phase → (ℕ → Phase) → ℕ → Phase
set i a f j = if i == j then a else f j

-- `pthread_cond_broadcast(&quota_state_cond)`
abbrev pub woken : Phase → Phase
woken asleep = gate
woken outside = outside
woken gate = gate
woken passed = passed
woken (waiting req_id) = waiting req_id
woken taken = taken
woken blocked = blocked

module _ {ℓ} {W : Type ℓ} where
  abbrev pub move : ℕ → Phase → Pod W → Launches W → Launches W
  move i a p s = record s { pod = p; phase = set i a s.phase }

  -- The state in which the thread waits on `sleeping_count_cond`.
  abbrev pub sleepless : Pod W → Pod W
  sleepless p = record p { sleeping_count = p.sleeping_count + 1; quota_state = 0 }

pub data LaunchStep {ℓ} {W : Type ℓ} ⦃d : Double W⦄ (h : Host)
    : Launches W → Launches W → Type ℓ where
  enters :
      {s : Launches W} (i : ℕ)
      → s.phase i ≡ outside
      → LaunchStep h s (move i gate (enter_launch s.pod) s)
  tests :
      {s : Launches W} (i : ℕ)
      → s.phase i ≡ gate
      → s.held ≡ false
      → LaunchStep h s
          (move i (if (pass_gate s.pod).0 then passed else asleep) (pass_gate s.pod).1 s)
  answers :
      {s : Launches W} (i sockfd : ℕ) (now : ℤ) (overuse burst : W) {remain : W} {p : Pod W}
      → s.phase i ≡ passed
      → check_quota h sockfd now overuse burst s.pod ≡ some (answered remain, p)
      → LaunchStep h s (move i outside p s)
  asks :
      {s : Launches W} (i sockfd : ℕ) (now : ℤ) (overuse burst : W) {req_id : ℕ} {p : Pod W}
      → s.phase i ≡ passed
      → s.held ≡ false
      → check_quota h sockfd now overuse burst s.pod ≡ some (asked req_id, p)
      → LaunchStep h s (move i (waiting req_id) p s)
  announces :
      {s : Launches W} (i req_id : ℕ)
      → s.phase i ≡ waiting req_id
      → LaunchStep h s (record s { pod = await_response 1 s.pod })
  takes :
      {s : Launches W} (i req_id : ℕ) (now : ℤ) {p : Pod W}
      → s.phase i ≡ waiting req_id
      → take_response req_id now (await_response 0 s.pod) ≡ some p
      → LaunchStep h s (move i taken p s)
  retries :
      {s : Launches W} (i req_id : ℕ) (now : ℤ)
      → s.phase i ≡ waiting req_id
      → take_response req_id now (await_response 0 s.pod) ≡ none
      → LaunchStep h s (record s { pod = await_response 0 s.pod })
  finishes :
      {s : Launches W} (i : ℕ) {remain : W} {p : Pod W}
      → s.phase i ≡ taken
      → s.held ≡ false
      → finish_request s.pod ≡ some (remain, p)
      → LaunchStep h s (record s { pod = p; phase = λ j. woken (set i outside s.phase j) })
  blocks :
      {s : Launches W} (i : ℕ)
      → s.phase i ≡ taken
      → s.held ≡ false
      → finish_request s.pod ≡ none
      → LaunchStep h s (record (move i blocked (sleepless s.pod) s) { held = true })
  resumes :
      {s : Launches W} (i : ℕ) {remain : W} {p : Pod W}
      → s.phase i ≡ blocked
      → resume_request s.pod ≡ some (remain, p)
      → LaunchStep h s
          (record s { pod = p; held = false; phase = λ j. woken (set i outside s.phase j) })
  sends : {s : Launches W} → LaunchStep h s (record s { pod = (send_request s.pod).1 })
  receives :
      {s : Launches W} (buf : List ℕ) {p : Pod W}
      → receive_response buf s.pod ≡ some p
      → LaunchStep h s (record s { pod = p })

pub data LaunchRun {ℓ} {W : Type ℓ} ⦃d : Double W⦄ (h : Host) (start : Launches W)
    : Launches W → Type ℓ where
  begun : LaunchRun h start start
  then_step : {s t : Launches W} → LaunchRun h start s → LaunchStep h s t → LaunchRun h start t
