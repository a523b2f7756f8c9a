-- ===== src/Scheduler/Rounds.antt =====
-- `schedule_daemon_func` of src/scheduler.cpp: a round of its loop, as it composes the parts. Messages
-- arrive while it waits; what the waits bring is given.
use fa_st_manager.Common.{
  ℕ, List, [], ◌∷◌, Option, none, some, Bool, true, false, not, is_empty, if◌then◌else◌, ◌>>=◌,
}
use fa_st_manager.Double.{Double}
use fa_st_manager.Scheduler.Message.{handle_message}
use fa_st_manager.Scheduler.Select.{Pass, approved, all_at_limit, none_approved, select_candidates}
use fa_st_manager.Scheduler.State.{Candidate, Scheduler, ValidCandidate}
use fa_st_manager.Scheduler.Tokens.{update_tokens, give_tokens, token_timed_out, scan_candidates}

-- A message that arrives, and the clock readings while it is handled.
pub record Arrival {ℓ} (W : Type ℓ) : Type ℓ where
  pub sock : ℕ
  pub buf : List ℕ
  pub now : W
  pub later : W

-- A wait on `candidate_cond`: what arrives meanwhile, and how it ends.
pub record Waited {ℓ} (W : Type ℓ) : Type ℓ where
  pub arrivals : List (Arrival W)
  pub timed_out : Bool

-- The readings and waits of a round: for no candidates, for the passes of `select_candidates`, each with
-- its clock reading and what arrives after it, and for the tokens.
pub record Round {ℓ} (W : Type ℓ) : Type ℓ where
  pub first : List (Arrival W)
  pub before : W
  pub passes : List (W × List (Arrival W))
  pub clock : ℕ → W × W
  pub after : W
  pub waits : List (Waited W)

module _ {ℓ} {W : Type ℓ} ⦃d : Double W⦄ where
  abbrev pub arrive : List (Arrival W) → Scheduler W → Option (Scheduler W)
  arrive [] s = some s
  arrive (a ∷ as') s = handle_message a.sock a.buf a.now a.later s >>= λ t. arrive as' t

  -- `while (should_wait)`: whether the daemon still waits when the waits are used up.
  unfoldable pub await_tokens : List (Waited W) → Scheduler W → Option (Bool × Scheduler W)
  unfolding token_timed_out scan_candidates
  await_tokens [] s = some (true, s)
  await_tokens (w ∷ ws) s = arrive w.arrivals s >>= λ t.
      (if w.timed_out
        then (token_timed_out t >>= λ u. some (false, u))
        else (scan_candidates t.candidates t >>= λ r.
            (let rest = await_tokens ws r.1 in if r.0 then some (false, r.1) else rest)))

  -- `continue`, or the return of the approved candidates.
  abbrev pub after_pass :
      (Scheduler W → Option (Option (List (Candidate W)) × Scheduler W))
      → Pass W
      → Scheduler W
      → Option (Option (List (Candidate W)) × Scheduler W)
  after_pass again (approved cs) s = some (some cs, s)
  after_pass again (all_at_limit waittime) s = again s
  after_pass again (none_approved waittime) s = again s

  module _ (sort : List (ValidCandidate W) → List (ValidCandidate W)) where
    -- `while (true)` of `select_candidates`: what it returns, unless the passes are used up.
    unfoldable pub select_loop :
        List (W × List (Arrival W))
        → Scheduler W
        → Option (Option (List (Candidate W)) × Scheduler W)
    unfolding select_candidates
    select_loop [] s = some (none, s)
    select_loop (p ∷ ps) s = select_candidates sort p.0 s >>= λ r.
        after_pass (λ t. arrive p.1 t >>= λ u. select_loop ps u) r.0 r.1

    -- From the selected candidates on.
    unfoldable pub serve_selects :
        Round W → Option (List (Candidate W)) → Scheduler W → Option (Bool × Scheduler W)
    unfolding give_tokens update_tokens await_tokens
    serve_selects r none s = some (false, s)
    serve_selects r (some cs) s = give_tokens r.clock 0 cs s >>= λ t.
        update_tokens r.after t >>= λ u.
        (if u.0 then (await_tokens r.waits u.1 >>= λ w. some (not w.0, w.1)) else some (true, u.1))

    -- Whether the round came to its end, and the state then.
    unfoldable pub daemon_round : Round W → Scheduler W → Option (Bool × Scheduler W)
    unfolding update_tokens select_loop serve_selects
    daemon_round r s =
        if is_empty s.candidates
        then (arrive r.first s >>= λ t. some (true, t))
        else (update_tokens r.before s >>= λ u.
            select_loop r.passes u.1 >>= λ v. serve_selects r v.0 v.1)

    -- Round after round; a round that still waits is the last one.
    unfoldable pub daemon_rounds : List (Round W) → Scheduler W → Option (Scheduler W)
    unfolding daemon_round
    daemon_rounds [] s = some s
    daemon_rounds (r ∷ rs) s = daemon_round r s >>= λ v.
        (let rest = daemon_rounds rs v.1 in if v.0 then rest else some v.1)
