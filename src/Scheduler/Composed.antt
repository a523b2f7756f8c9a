-- ===== src/Scheduler/Composed.antt =====
-- The rounds of `schedule_daemon_func` of src/scheduler.cpp against the steps of its threads.

use mathlib.Core.Option.{some-injective}
use mathlib.Core.Path.{subst}
use mathlib.Core.List.{Permᴰ}
use fa_st_manager.Scheduler.Served.{started-Reach-Inv}
use fa_st_manager.Scheduler.Invariant.{Inv}
use fa_st_manager.Scheduler.Settings.{Settings, started}
use fa_st_manager.Scheduler.Config.{Row}
use fa_st_manager.Scheduler.Steps.{
  here, Daemon, Reach, next, message, updates, selects, gives, times_out, scans, chosen,
}
use fa_st_manager.Common.{
  ℕ, ◌+◌, ◌≡◌, List, [], ◌∷◌, Option, none, some, Bool, true, false, not, inl, inr, Bool-cases,
  is_empty, if◌then◌else◌, ◌>>=◌, >>=-eq-some, All, ◌<◌, ◌^◌,
}
use fa_st_manager.Double.{Double}
use fa_st_manager.Scheduler.Message.{handle_message}
use fa_st_manager.Scheduler.Rounds.{
  Arrival, Waited, Round, arrive, await_tokens, after_pass, select_loop, serve_selects,
  daemon_round, daemon_rounds,
}
use fa_st_manager.Scheduler.Select.{Pass, approved, all_at_limit, none_approved, select_candidates}
use fa_st_manager.Scheduler.State.{Candidate, Scheduler, ValidCandidate}
use fa_st_manager.Scheduler.Tokens.{
  update_tokens, give_token, give_tokens, token_timed_out, scan_candidates,
}

-- What is still to be served.
abbrev pub selected_of {ℓ} : {W : Type ℓ} → Option (List (Candidate W)) → List (Candidate W)
selected_of none = []
selected_of (some cs) = cs

module _ {ℓ} {W : Type ℓ} ⦃d : Double W⦄ (sort : List (ValidCandidate W) → List (ValidCandidate W))
    (start : Daemon W) where
  -- The state is reachable, with these candidates selected.
  abbrev pub At : Scheduler W → List (Candidate W) → Type ℓ
  At s cs = Reach sort start (record { shared = s; selects = cs })

  arrive-At :
      (as' : List (Arrival W)) (cs : List (Candidate W)) (s : Scheduler W) {t : Scheduler W}
      → At s cs
      → arrive as' s ≡ some t
      → At t cs
  arrive-At [] cs s r run = subst (λ u. At u cs) (some-injective _ _ run) r
  arrive-At (a ∷ as') cs s r run =
      let (u, one, rest) =
        >>=-eq-some (handle_message a.sock a.buf a.now a.later s) (λ t. arrive as' t) run in
      arrive-At as' cs u (next r (message a.sock a.buf a.now a.later one)) rest

  give_tokens-At :
      (clock : ℕ → W × W) (i : ℕ) (cs : List (Candidate W)) (s : Scheduler W) {t : Scheduler W}
      → At s cs
      → give_tokens clock i cs s ≡ some t
      → At t []
  unfolding give_tokens
  give_tokens-At clock i [] s r run = subst (λ u. At u []) (some-injective _ _ run) r
  give_tokens-At clock i (c ∷ cs) s r run =
      let (u, one, rest) =
        >>=-eq-some (give_token (clock i).0 (clock i).1 c s) (give_tokens clock (i + 1) cs) run in
      give_tokens-At clock (i + 1) cs u (next r (gives c (clock i).0 (clock i).1 one)) rest

  await_tokens-At :
      (ws : List (Waited W)) (s : Scheduler W) {b : Bool} {t : Scheduler W}
      → At s []
      → await_tokens ws s ≡ some (b, t)
      → At t []
  unfolding await_tokens
  await_tokens-At [] s r run = subst (λ u. At u.1 []) (some-injective _ _ run) r
  await_tokens-At (w ∷ ws) s r run =
      let (t, arrived, rest) =
        >>=-eq-some (arrive w.arrivals s)
          (λ t.
            if w.timed_out
            then (token_timed_out t >>= λ u. some (false, u))
            else (scan_candidates t.candidates t >>= λ r.
                (let rest = await_tokens ws r.1 in if r.0 then some (false, r.1) else rest)))
          run in
      let r1 = arrive-At w.arrivals [] s r arrived in
      elim (Bool-cases w.timed_out) [
        | inl e ↦
            let (u, out, end) =
              >>=-eq-some (token_timed_out t) (λ u. some (false, u)) (rw e at rest) in
            subst (λ v. At v.1 []) (some-injective _ _ end) (next r1 (times_out out))
        | inr e ↦
            let (f, found, end) =
              >>=-eq-some (scan_candidates t.candidates t)
                (λ r. let rest = await_tokens ws r.1 in if r.0 then some (false, r.1) else rest)
                (rw e at rest) in
            let r2 = next r1 (scans f.0 found) in
            elim (Bool-cases f.0) [
              | inl y ↦ subst (λ v. At v.1 []) (some-injective _ _ (rw y at end)) r2
              | inr n ↦ await_tokens-At ws f.1 r2 (rw n at end)
            ]
      ]

  after_pass-At :
      (again : Scheduler W → Option (Option (List (Candidate W)) × Scheduler W))
      {o : Option (List (Candidate W))} {t : Scheduler W}
      → ((u : Scheduler W) → At u [] → again u ≡ some (o, t) → At t (selected_of o))
      → (pass : Pass W) (u : Scheduler W) → At u (chosen pass)
      → after_pass again pass u ≡ some (o, t)
      → At t (selected_of o)
  after_pass-At again go (approved cs) u r e =
      subst (λ v. At v.1 (selected_of v.0)) (some-injective _ _ e) r
  after_pass-At again go (all_at_limit w) u r e = go u r e
  after_pass-At again go (none_approved w) u r e = go u r e

  select_loop-At :
      (ps : List (W × List (Arrival W))) (s : Scheduler W) {o : Option (List (Candidate W))}
      {t : Scheduler W}
      → At s []
      → select_loop sort ps s ≡ some (o, t)
      → At t (selected_of o)
  unfolding select_loop
  select_loop-At [] s r run = subst (λ v. At v.1 (selected_of v.0)) (some-injective _ _ run) r
  select_loop-At (p ∷ ps) s r run =
      let again : Scheduler W → Option (Option (List (Candidate W)) × Scheduler W) =
        λ t. arrive p.1 t >>= λ u. select_loop sort ps u in
      let (v, passed, end) =
        >>=-eq-some (select_candidates sort p.0 s) (λ v. after_pass again v.0 v.1) run in
      after_pass-At again
        (λ u r' e.
          let (x, arrived, rest) = >>=-eq-some (arrive p.1 u) (λ u. select_loop sort ps u) e in
          select_loop-At ps x (arrive-At p.1 [] u r' arrived) rest)
        v.0 v.1 (next r (selects p.0 v.0 passed)) end

  pub serve_selects-At :
      (q : Round W) (o : Option (List (Candidate W))) (s : Scheduler W) {b : Bool} {t : Scheduler W}
      → At s (selected_of o)
      → serve_selects sort q o s ≡ some (b, t)
      → At t []
  unfolding serve_selects
  serve_selects-At q none s r run = subst (λ v. At v.1 []) (some-injective _ _ run) r
  serve_selects-At q (some cs) s r run =
      let (t, given, rest) =
        >>=-eq-some (give_tokens q.clock 0 cs s)
          (λ t. update_tokens q.after t >>= λ u.
            (if u.0
              then (await_tokens q.waits u.1 >>= λ w. some (not w.0, w.1))
              else some (true, u.1)))
          run in
      let (u, updated, last) =
        >>=-eq-some (update_tokens q.after t)
          (λ u.
            if u.0
            then (await_tokens q.waits u.1 >>= λ w. some (not w.0, w.1))
            else some (true, u.1))
          rest in
      let r1 = next (give_tokens-At q.clock 0 cs s r given) (updates q.after u.0 updated) in
      elim (Bool-cases u.0) [
        | inl y ↦
            let (w, waited, end) =
              >>=-eq-some (await_tokens q.waits u.1) (λ w. some (not w.0, w.1)) (rw y at last) in
            subst (λ v. At v.1 []) (some-injective _ _ end) (await_tokens-At q.waits u.1 r1 waited)
        | inr n ↦ subst (λ v. At v.1 []) (some-injective _ _ (rw n at last)) r1
      ]

  -- A round of the daemon's loop, whatever arrives while it waits, however its waits end and wherever it
  -- is when they are used up, leads from a reachable state with nothing selected to another one.
  pub daemon_round-At :
      (q : Round W) (s : Scheduler W) {b : Bool} {t : Scheduler W}
      → At s []
      → daemon_round sort q s ≡ some (b, t)
      → At t []
  unfolding daemon_round
  daemon_round-At q s r run = elim (Bool-cases (is_empty s.candidates)) [
    | inl e ↦
        let (t, arrived, end) =
          >>=-eq-some (arrive q.first s) (λ t. some (true, t)) (rw e at run) in
        subst (λ v. At v.1 []) (some-injective _ _ end) (arrive-At q.first [] s r arrived)
    | inr e ↦
        let (u, updated, rest) =
          >>=-eq-some (update_tokens q.before s)
            (λ u. select_loop sort q.passes u.1 >>= λ v. serve_selects sort q v.0 v.1)
            (rw e at run) in
        let (v, selected, end) =
          >>=-eq-some (select_loop sort q.passes u.1) (λ v. serve_selects sort q v.0 v.1) rest in
        serve_selects-At q v.0 v.1
          (select_loop-At q.passes u.1 (next r (updates q.before u.0 updated)) selected) end
  ]

  daemon_rounds-At :
      (qs : List (Round W)) (s : Scheduler W) {t : Scheduler W}
      → At s []
      → daemon_rounds sort qs s ≡ some t
      → At t []
  unfolding daemon_rounds
  daemon_rounds-At [] s r run = subst (λ u. At u []) (some-injective _ _ run) r
  daemon_rounds-At (q ∷ qs) s r run =
      let (v, one, rest) =
        >>=-eq-some (daemon_round sort q s)
          (λ v. let rest = daemon_rounds sort qs v.1 in if v.0 then rest else some v.1) run in
      let r1 = daemon_round-At q s r one in
      elim (Bool-cases v.0) [
        | inl y ↦ daemon_rounds-At qs v.1 r1 (rw y at rest)
        | inr n ↦ subst (λ u. At u []) (some-injective _ _ (rw n at rest)) r1
      ]

module _ {ℓ} {W : Type ℓ} ⦃d : Double W⦄ (sort : List (ValidCandidate W) → List (ValidCandidate W))
    (permutes : (vs : List (ValidCandidate W)) → Permᴰ vs (sort vs)) where
  -- From the start of the daemon on, after any rounds of its loop, whatever arrives while it waits and
  -- however its waits end, each candidate and each token has a client, and `g_sm_occupied` is the sum of
  -- the partitions of the tokens modulo 2 ^ 64. Every partition in the configuration file is a `size_t`,
  -- and the sort permutes its list.
  pub daemon_rounds-Inv :
      (s : Settings W) (rows : List (Row W)) (qs : List (Round W)) {t : Scheduler W}
      → All (λ (r : Row W). r.sm_partition < 2 ^ 64) rows
      → daemon_rounds sort qs (started s rows) ≡ some t
      → Inv t []
  daemon_rounds-Inv s rows qs small run =
      let start : Daemon W = record { shared = started s rows; selects = [] } in
      started-Reach-Inv sort permutes s rows small
        (daemon_rounds-At sort start qs (started s rows) here run)
