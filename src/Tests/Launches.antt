-- ===== src/Tests/Launches.antt =====
-- The theorems about launches, at threads of the daemon of the tests.
use fa_st_manager.Common.{
  ℕ, [], ◌∷◌, none, some, true, false, refl, arith, ◌≡◌, ◌==◌, if◌then◌else◌,
}
use fa_st_manager.Common.Int.{pos}
use fa_st_manager.Double.{Thousandths, thousandths}
use fa_st_manager.PodManager.Blocked.{LaunchRun-Frozen, is_stopped}
use fa_st_manager.PodManager.Slept.{Slept}
use fa_st_manager.PodManager.Inside.{Counted, LaunchRun-Counted, alone_finishes}
use fa_st_manager.PodManager.Launch.{finish_request, enter_launch, take_response, await_response}
use fa_st_manager.PodManager.Launches.{
  Launches, outside, gate, taken, waiting, blocked, move, LaunchRun, LaunchStep, begun, then_step,
  enters, takes, blocks, sleepless,
}
use fa_st_manager.PodManager.State.{Pod}
use fa_st_manager.Tests.Comm.{host_of_test}
use fa_st_manager.Tests.PodManager.{pod_of_test}

-- Thread 0 has its response, and thread 1 is before its test.
abbrev two_inside : Launches Thousandths
two_inside = record {
  pod = record pod_of_test { kernel_launch_count = 2 };
  held = false;
  phase = λ i. if i == 0 then taken else (if i == 1 then gate else outside);
}

-- Thread 0 waits for the other to sleep.
abbrev stuck : Launches Thousandths
stuck = record (move 0 blocked (sleepless two_inside.pod) two_inside) { held = true }

two_inside_finish : finish_request two_inside.pod ≡ none
unfolding finish_request
two_inside_finish = refl

two_inside-Slept : Slept two_inside
two_inside-Slept = record {
  bound = 2;
  beyond = λ j h. ground arith;
  counted = refl;
  none_blocked = λ free j. ground arith;
  one_blocked = λ i j hi hj. ground arith;
}

-- Thread 2 then enters.
LaunchRun-Frozen_example :
    let later = move 2 gate (enter_launch stuck.pod) stuck in
    (later.held ≡ true)
    × ((i : ℕ) → is_stopped (stuck.phase i) ≡ true → later.phase i ≡ stuck.phase i)
LaunchRun-Frozen_example =
    LaunchRun-Frozen host_of_test 1 {start = two_inside} {s = stuck} (2, λ j h. ground arith, refl)
      two_inside-Slept (then_step begun (blocks {s = two_inside} 0 refl refl two_inside_finish))
      refl (omega arith) (then_step begun (enters {s = stuck} 2 refl))

-- No thread is in the function.
abbrev empty : Launches Thousandths
empty = record {
  pod = record pod_of_test { kernel_launch_count = 0 };
  held = false;
  phase = λ i. outside;
}

LaunchRun-Counted_example : Counted (move 0 gate (enter_launch empty.pod) empty)
LaunchRun-Counted_example =
    LaunchRun-Counted host_of_test (then_step begun (enters {s = empty} 0 refl))
      (0, λ j h. refl, refl)

-- The response to the request of thread 0 is there.
abbrev responded : Launches Thousandths
responded = record {
  pod = record pod_of_test {
    kernel_launch_count = 1;
    quota_state = 1;
    response_map = (300, 196 ∷ 9 ∷ 0 ∷ 0 ∷ 0 ∷ 0 ∷ 0 ∷ 0 ∷ []) ∷ [];
  };
  held = false;
  phase = λ i. if i == 0 then waiting 300 else outside;
}

abbrev answered_pod : Pod Thousandths
answered_pod = record responded.pod {
  scheduler_recv_sync = 0;
  pod_quota = pos 2500;
  quota_updated_tp = pos 7000;
  pod_overuse_ms = pos 0;
  response_map = [];
}

abbrev answered_launches : Launches Thousandths
answered_launches = move 0 taken answered_pod responded

taken_run : take_response 300 (pos 7000) (await_response 0 responded.pod) ≡ some answered_pod
unfolding take_response await_response fa_st_manager.Comm.Buffer.get_msg_data
    fa_st_manager.Comm.Bytes.of_le
taken_run = refl

run_of_test : LaunchRun host_of_test responded answered_launches
run_of_test =
    then_step begun (takes {s = responded} 0 300 (pos 7000) {p = answered_pod} refl taken_run)

responded-Counted : Counted responded
responded-Counted = (1, λ j h. ground arith, refl)

alone_finishes_example :
    (u : Launches Thousandths) × LaunchStep host_of_test answered_launches u
    × (u.phase 0 ≡ outside)
    × (u.pod.quota_state ≡ 0)
    × (u.pod.kernel_launch_count ≡ 0)
alone_finishes_example =
    alone_finishes host_of_test {s = responded} {t = answered_launches} 0 run_of_test
      responded-Counted refl refl (λ j ne. ground (arith, ne))
