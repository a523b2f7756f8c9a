-- ===== src/Scheduler/Reached.antt =====
-- The invariant in every reachable state.
use fa_st_manager.Scheduler.Config.{read_resource_config}
use mathlib.Core.Path.{subst}
use fa_st_manager.Scheduler.Tokens.{token_timed_out}
use mathlib.Core.Option.{some-injective}
use mathlib.Core.List.{Permᴰ}
use fa_st_manager.Common.{refl, List, ap, sym, ◌∙◌}
use fa_st_manager.Double.{Double}
use fa_st_manager.Scheduler.State.{ValidCandidate}
use fa_st_manager.Scheduler.Steps.{
  Daemon, Step, Reach, message, updates, selects, gives, times_out, scans, reloads, here, next,
}
use fa_st_manager.Scheduler.Invariant.{Inv, update_tokens-Inv, scan_candidates-Inv, take_back-Inv}
use fa_st_manager.Scheduler.Preserve.{
  give_token-Inv, handle_message-Inv, Inv-SameParts, NodesKnown-SameParts,
}
use fa_st_manager.Scheduler.Selection.{select_candidates-Outcome}

module _ {ℓ} {W : Type ℓ} ⦃d : Double W⦄ (sort : List (ValidCandidate W) → List (ValidCandidate W))
    (permutes : (vs : List (ValidCandidate W)) → Permᴰ vs (sort vs)) where
  Step-Inv : {x y : Daemon W} → Step sort x y → Inv x.shared x.selects → Inv y.shared y.selects
  unfolding token_timed_out read_resource_config
  Step-Inv (message {s} {t} {cs} sock buf now later run) v =
      handle_message-Inv sock buf now later s cs v run
  Step-Inv (updates {s} {t} {cs} now wait run) v =
      let (wait', t', run', v') = update_tokens-Inv now s cs v in
      subst (λ u. Inv u cs) (ap (λ r. r.1) (some-injective _ _ (sym run' ∙ run))) v'
  Step-Inv (selects {s} {t} now pass run) v =
      (select_candidates-Outcome sort permutes now s pass t v run).invariant
  Step-Inv (gives {s} {t} {cs} c now later run) v = give_token-Inv now later c s cs v run
  Step-Inv (times_out {s} {t} {cs} run) v = take_back-Inv s s.token_takers cs refl v run
  Step-Inv (scans {s} {t} {cs} found run) v =
      let (found', t', run', v') = scan_candidates-Inv s.candidates s cs v.waiting v in
      subst (λ u. Inv u cs) (ap (λ r. r.1) (some-injective _ _ (sym run' ∙ run))) v'
  Step-Inv (reloads {s} {cs} rows same) v =
      Inv-SameParts s (read_resource_config rows s) cs same refl refl
        (NodesKnown-SameParts s.client_info_map _ s.candidates same v.waiting) v

  -- From a state where the invariant holds, every reachable state has it, whatever the messages, the
  -- clock and the order of the steps, as long as a reload changes no partition: each candidate and each
  -- token has a client, and `g_sm_occupied` is the sum of the partitions of the tokens modulo 2 ^ 64.
  pub Reach-Inv :
      {x y : Daemon W} → Inv x.shared x.selects → Reach sort x y → Inv y.shared y.selects
  Reach-Inv v here = v
  Reach-Inv v (next r st) = Step-Inv st (Reach-Inv v r)
