-- ===== src/Tests/Scheduler.antt =====
-- Two clients of the scheduler, and the theorems about them.
use fa_st_manager.Comm.Bytes.{le_bytes}
use fa_st_manager.Comm.Buffer.{append_msg_data}
use fa_st_manager.Scheduler.Steps.{here, Step, Daemon, Reach, next, updates, selects, gives}
use fa_st_manager.Comm.Message.{prepare_response}
use fa_st_manager.Common.Int.{pos, ◌-ℤ◌, ◌*ℤ◌, ◌+ℤ◌}
use fa_st_manager.Double.{Thousandths, thousandths}
use fa_st_manager.Scheduler.Client.{ClientInfo}
use fa_st_manager.Scheduler.State.{Candidate, Scheduler, ValidCandidate}
use fa_st_manager.Scheduler.Parts.{AllSized}
use fa_st_manager.Scheduler.Invariant.{Inv}
use fa_st_manager.Scheduler.Select.{Pass, select_candidates, all_at_limit}
use fa_st_manager.Scheduler.Tokens.{update_tokens, give_token}
use fa_st_manager.Common.{ℕ, List, [], ◌∷◌, Option, none, some, false, refl, Name, arith, ◌≡◌}

abbrev pub alice_name : Name
alice_name = 97 ∷ []

abbrev pub bob_name : Name
bob_name = 98 ∷ []

abbrev pub client_of_test : Name → ℕ → ℕ → ClientInfo Thousandths
client_of_test name partition burst = record {
  name = name;
  gpu_mem_used = 100;
  gpu_mem_limit = 1000;
  gpu_sm_partition = partition;
  min_frac = pos 300;
  max_frac = pos 600;
  base_quota = pos 250_000;
  min_quota = pos 100_000;
  max_quota = pos 300_000;
  quota = pos 250_000;
  latest_overuse = pos 0;
  latest_actual_usage = pos 0;
  burst = pos burst;
}

abbrev pub alice : ClientInfo Thousandths
alice = client_of_test alice_name 70 40_000

abbrev pub bob : ClientInfo Thousandths
bob = client_of_test bob_name 60 0

abbrev pub candidate_of_test : Name → ℕ → Candidate Thousandths
candidate_of_test name expired = record {
  socket = 5;
  name = name;
  req_id = 1;
  arrived_time = pos 1000;
  expired_time = pos expired;
}

abbrev pub request_of_alice : Candidate Thousandths
request_of_alice = candidate_of_test alice_name 0

abbrev pub request_of_bob : Candidate Thousandths
request_of_bob = candidate_of_test bob_name 0

-- The token of `bob` is out, and `alice` waits.
abbrev pub start : Scheduler Thousandths
start = record {
  quota = pos 250_000;
  min_quota = pos 100_000;
  window_size = pos 10_000_000;
  history_list = [];
  client_info_map = (alice_name, alice) ∷ (bob_name, bob) ∷ [];
  candidates = record { node = 0; candidate = request_of_alice } ∷ [];
  next_node = 1;
  token_takers = candidate_of_test bob_name 2000 ∷ [];
  g_sm_occupied = 60;
  outbox = [];
}

-- No token is out.
abbrev pub idle : Scheduler Thousandths
idle = record start { token_takers = []; g_sm_occupied = 0 }

abbrev pub value_of {ℓ} : {A : Type ℓ} → A → Option A → A
value_of a none = a
value_of a (some b) = b

pub sized_example : AllSized start.client_info_map
sized_example = λ j. ground arith

abbrev pub start_Inv : Inv start []
start_Inv = record {
  sized = sized_example;
  takers = (refl, tt);
  waiting = (refl, tt);
  pending = tt;
  accounted = refl;
}

abbrev pub idle_Inv : Inv idle []
idle_Inv = record {
  sized = sized_example;
  takers = tt;
  waiting = (refl, tt);
  pending = tt;
  accounted = refl;
}

abbrev pub same : List (ValidCandidate Thousandths) → List (ValidCandidate Thousandths)
same vs = vs

abbrev pub given : Candidate Thousandths → Scheduler Thousandths → Scheduler Thousandths
given c s = value_of s (give_token (pos 5000) (pos 6000) c s)

abbrev pub updated : Scheduler Thousandths
updated = (value_of (false, start) (update_tokens (pos 5000) start)).1

abbrev pub passed : Pass Thousandths × Scheduler Thousandths
passed = value_of (all_at_limit (pos 0), updated) (select_candidates same (pos 5000) updated)

abbrev pub daemon : List (Candidate Thousandths) → Scheduler Thousandths → Daemon Thousandths
daemon cs s = record { shared = s; selects = cs }

pub updated_run : update_tokens (pos 5000) start ≡ some (false, updated)
unfolding update_tokens
updated_run = refl

pub passed_run : select_candidates same (pos 5000) updated ≡ some (passed.0, passed.1)
unfolding update_tokens select_candidates ◌-ℤ◌ ◌*ℤ◌
passed_run = refl

pub given_run :
    give_token (pos 5000) (pos 6000) request_of_alice passed.1
    ≡ some (given request_of_alice passed.1)
unfolding update_tokens select_candidates give_token append_msg_data le_bytes ◌-ℤ◌ ◌*ℤ◌ ◌+ℤ◌
    prepare_response
given_run = refl

abbrev pub step_of_test : Step same (daemon [] updated) (daemon (request_of_alice ∷ []) passed.1)
unfolding update_tokens select_candidates ◌-ℤ◌ ◌*ℤ◌
step_of_test = selects {s = updated} {t = passed.1} (pos 5000) passed.0 passed_run

pub run_of_test : Reach same (daemon [] start) (daemon [] (given request_of_alice passed.1))
run_of_test =
    next
      (next (next here (updates {s = start} {t = updated} {cs = []} (pos 5000) false updated_run))
        step_of_test)
      (gives {s = passed.1} {t = given request_of_alice passed.1} {cs = []} request_of_alice
        (pos 5000) (pos 6000) given_run)

pub updated_Inv : Inv updated []
unfolding update_tokens
updated_Inv = record {
  sized = sized_example;
  takers = tt;
  waiting = (refl, tt);
  pending = tt;
  accounted = refl;
}
