-- ===== src/Tests/Passes.antt =====
-- The theorems about the scheduler, at the clients of the tests.
use mathlib.Core.List.{Permᴰ}
use fa_st_manager.Scheduler.Steps.{chosen}
use fa_st_manager.Scheduler.Selection.{Outcome, select_candidates-Outcome}
use fa_st_manager.Scheduler.Parts.{total}
use fa_st_manager.Scheduler.Accounting.{any_expired, young}
use fa_st_manager.Scheduler.Reached.{Reach-Inv}
use fa_st_manager.Scheduler.Limits.{candidate_of, fits, others, approve_lem_each, update_tokens_lem}
use fa_st_manager.Scheduler.Quota.{get_quota_bounds, update_return_time_latest}
use fa_st_manager.Scheduler.Order.{schd_priority_order, schd_priority_cycle}
use fa_st_manager.Scheduler.Priority.{schd_priority}
use fa_st_manager.Double.{Thousandths, Thousandths-IsOrdered, thousandths}
use fa_st_manager.Tests.Scheduler.{
  given, start, sized_example, alice, request_of_alice, idle, alice_name, passed, bob_name,
  request_of_bob, same, start_Inv, run_of_test, updated, updated_Inv, passed_run,
}
use fa_st_manager.Scheduler.State.{ValidCandidate, Scheduler, Candidate}
use fa_st_manager.Scheduler.Invariant.{Inv}
use fa_st_manager.Scheduler.Tokens.{give_tokens, update_tokens}
use fa_st_manager.Scheduler.Overrun.{pass_overruns}
use fa_st_manager.Common.Int.{ℤ, ◌-ℤ◌, ◌*ℤ◌, pos, negsuc, ltb_ℤ}
use fa_st_manager.Scheduler.Select.{approve, collect, usage_from, select_candidates, approved}
use fa_st_manager.Scheduler.Client.{get_quota, update_return_time, History}
use fa_st_manager.Common.{
  ℕ, List, [], ◌∷◌, Option, none, some, true, false, refl, Name, ◌≡◌, not, ◌≤◌, ◌≢◌, is_empty, ◌<◌,
  map, ◌+◌, arith, ◌&&◌, filter, ◌%◌, ◌^◌,
}

pub permutes_same : (vs : List (ValidCandidate Thousandths)) → Permᴰ vs (same vs)
permutes_same [] = Permᴰ.nil
permutes_same (v ∷ vs) = Permᴰ.cons refl (permutes_same vs)

Reach-Inv_example : Inv (given request_of_alice passed.1) []
Reach-Inv_example = Reach-Inv same permutes_same start_Inv run_of_test

select_candidates-Outcome_example : Outcome updated passed.1 (chosen passed.0)
select_candidates-Outcome_example =
    select_candidates-Outcome same permutes_same (pos 5000) updated passed.0 passed.1 updated_Inv
      passed_run

update_tokens_lem_example :
    (g' : ℕ) × (update_tokens (pos 5000) start
      ≡ some (
        not (is_empty start.token_takers) && not (any_expired (pos 5000) start.token_takers),
        record start { token_takers = young (pos 5000) start.token_takers; g_sm_occupied = g' },
      ))
    × (g' ≡ total start.client_info_map (young (pos 5000) start.token_takers) % 2 ^ 64)
update_tokens_lem_example = update_tokens_lem (pos 5000) start [] start_Inv

-- Both wait, with partitions of 70 and 60.
abbrev both : Scheduler Thousandths
both = record idle {
  candidates =
      record { node = 0; candidate = request_of_alice }
      ∷ record { node = 1; candidate = request_of_bob }
      ∷ [];
}

abbrev valid_in_both : ℕ → Candidate Thousandths → ValidCandidate Thousandths
valid_in_both i c = record {
  missing = pos 1500;
  remaining = pos 3000;
  usage = pos 0;
  arrived_time = pos 1000;
  iter = record { node = i; candidate = c };
}

both_valid :
    collect both.client_info_map
      (pos 5000)
      (usage_from (negsuc 9_994_999) [] [])
      both.candidates
      (pos 2_000_000)
    ≡ some (valid_in_both 0 request_of_alice ∷ valid_in_both 1 request_of_bob ∷ [], pos 2_000_000)
unfolding collect usage_from ◌-ℤ◌ ◌*ℤ◌
both_valid = refl

pass_overruns_example :
    (t : Scheduler Thousandths) × (u : Scheduler Thousandths) × (select_candidates same
        (pos 5000)
        both
      ≡ some (approved (request_of_alice ∷ request_of_bob ∷ []), t))
    × (give_tokens (λ i. (pos 5000, pos 6000)) 0 (request_of_alice ∷ request_of_bob ∷ []) t
        ≡ some u)
    × (u.g_sm_occupied ≡ 130)
unfolding ◌-ℤ◌
pass_overruns_example =
    pass_overruns same permutes_same (pos 5000) (pos 2_000_000) (λ i. (pos 5000, pos 6000)) both
      (valid_in_both 0 request_of_alice) (valid_in_both 1 request_of_bob ∷ [])
      (record {
        sized = sized_example;
        takers = tt;
        waiting = (refl, (refl, tt));
        pending = tt;
        accounted = refl;
      })
      both_valid (refl, (refl, tt)) (omega arith)

abbrev valid_of_test : ℤ → ℕ → ℕ → ValidCandidate Thousandths
valid_of_test missing usage i = record {
  missing = missing;
  remaining = pos 1000;
  usage = pos usage;
  arrived_time = pos 0;
  iter = record { node = i; candidate = request_of_alice };
}

approve_lem_each_example :
    approve idle.client_info_map 0 (valid_of_test (pos 10) 5 0 ∷ []) idle.candidates
    ≡ some (
      map candidate_of (filter (fits idle.client_info_map 0) (valid_of_test (pos 10) 5 0 ∷ [])),
      others
          (filter (fits idle.client_info_map 0) (valid_of_test (pos 10) 5 0 ∷ []))
          idle.candidates,
    )
approve_lem_each_example =
    approve_lem_each idle.client_info_map 0 (valid_of_test (pos 10) 5 0 ∷ []) idle.candidates
      ((refl, refl), tt)

get_quota_bounds_example :
    let (q, c') = get_quota alice in
    (c' ≡ record alice { quota = q })
    × (ltb_ℤ alice.burst (pos 1) ≡ true → q ≡ alice.base_quota)
    × (ltb_ℤ alice.burst (pos 1) ≡ false
        → (ltb_ℤ alice.max_quota q ≡ false)
          × (ltb_ℤ alice.max_quota alice.min_quota ≡ false → ltb_ℤ q alice.min_quota ≡ false))
get_quota_bounds_example = get_quota_bounds Thousandths-IsOrdered alice

abbrev past : Name → ℕ → ℕ → History Thousandths
past name start end = record { name = name; start = pos start; end = pos end }

update_return_time_latest_example :
    update_return_time
      (pos 9000)
      (pos 500)
      alice
      (past alice_name 0 1000 ∷ past alice_name 2000 3000 ∷ past bob_name 3000 4000 ∷ [])
    ≡ (
      record alice { latest_overuse = pos 500; latest_actual_usage = pos 1500 },
      past alice_name 0 1000 ∷ past alice_name 2000 3500 ∷ past bob_name 3000 4000 ∷ [],
    )
unfolding fa_st_manager.Common.Int.◌-ℤ◌ fa_st_manager.Common.Int.◌+ℤ◌
update_return_time_latest_example =
    update_return_time_latest (pos 9000) (pos 500) alice (past alice_name 0 1000 ∷ [])
      (past bob_name 3000 4000 ∷ []) (past alice_name 2000 3000) refl refl

schd_priority_order_example :
    let a = valid_of_test (pos 10) 5 0 in
    let b = valid_of_test (negsuc 3) 7 1 in
    (schd_priority a a ≡ false)
    × (schd_priority a b ≡ true → schd_priority b a ≡ true → schd_priority a a ≡ true)
schd_priority_order_example =
    schd_priority_order Thousandths-IsOrdered (valid_of_test (pos 10) 5 0)
      (valid_of_test (negsuc 3) 7 1) (valid_of_test (pos 10) 5 0) refl refl refl

schd_priority_cycle_example :
    let a = valid_of_test (pos 10) 9 0 in
    let b = valid_of_test (pos 0) 7 1 in
    let c = valid_of_test (negsuc 3) 5 2 in
    (schd_priority a c ≡ true) × (schd_priority c b ≡ true) × (schd_priority b a ≡ true)
schd_priority_cycle_example =
    schd_priority_cycle Thousandths-IsOrdered (valid_of_test (pos 10) 9 0)
      (valid_of_test (pos 0) 7 1) (valid_of_test (negsuc 3) 5 2) refl refl refl refl refl refl
