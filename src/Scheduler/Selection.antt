-- ===== src/Scheduler/Selection.antt =====
-- What a pass of `select_candidates` approves.
use fa_st_manager.Common.Int.{pos}
use fa_st_manager.Scheduler.Steps.{chosen}
use mathlib.Core.Path.{subst}
use mathlib.Core.Option.{some-injective}
use mathlib.Core.List.{Permᴰ}
use fa_st_manager.Common.{
  ℕ, ◌≡◌, ◌≤◌, refl, true, List, [], ◌∷◌, some, Name, All, Bool-cases, inl, leb, inr, All-filter,
  not, ◌==◌, leb→le, >>=-eq-some, ◌>>=◌, if◌then◌else◌,
}
use fa_st_manager.Double.{Double, nought, fmin}
use fa_st_manager.Scheduler.State.{
  Candidate, Clients, Scheduler, Node, ValidCandidate, add_size, sm_global_limit,
}
use fa_st_manager.Scheduler.Select.{
  collect, approve, finish, decide, select_candidates, Pass, usage_of, erase_node, within_window,
  oldest_wait, none_approved, usage_from,
}
use fa_st_manager.Scheduler.Parts.{AllKnown, Known-lookup, Known, size_of, part}
use fa_st_manager.Scheduler.Invariant.{Inv, NodesKnown}

pub All-Permᴰ {ℓ κ} :
    {A : Type ℓ} (P : A → Type κ) {xs ys : List A} → Permᴰ xs ys → All P xs → All P ys
All-Permᴰ P Permᴰ.nil h = h
All-Permᴰ P (Permᴰ.cons e p) h = (subst P e h.0, All-Permᴰ P p h.1)
All-Permᴰ P (Permᴰ.swap e f) h = (subst P f h.1.0, (subst P e h.0, h.1.1))
All-Permᴰ P (Permᴰ.trans p q) h = All-Permᴰ P q (All-Permᴰ P p h)

module _ {ℓ} {W : Type ℓ} ⦃d : Double W⦄ where
  -- A valid candidate has a client and is below its limit.
  abbrev pub IsValid : Clients W → ValidCandidate W → Type 0
  IsValid m v = Known m v.iter.candidate.name × (d.lt nought v.remaining ≡ true)

  -- A candidate whose partition fits beside what is occupied.
  abbrev pub Fits : Clients W → ℕ → Candidate W → Type 0
  Fits m g c = add_size g (size_of (part m c.name)) ≤ sm_global_limit

  pub collect_lem :
      (m : Clients W) (window_size : W) (usage : List (Name × W)) (ns : List (Node W))
      (waittime : W)
      → NodesKnown m ns
      → (vs : List (ValidCandidate W)) × (w : W) × (collect m window_size usage ns waittime
          ≡ some (vs, w))
        × All (IsValid m) vs
  unfolding collect
  collect_lem m window_size usage [] waittime k = ([], waittime, refl, tt)
  collect_lem m window_size usage (n ∷ ns) waittime k =
      let name = n.candidate.name in
      let (c, found, _) = Known-lookup m name k.0 in
      let used = usage_of name usage in
      let remaining = d.minus (d.times c.max_frac window_size) used in
      let valid : ValidCandidate W = record {
        missing = d.minus (d.times c.min_frac window_size) used;
        remaining = remaining;
        usage = used;
        arrived_time = n.candidate.arrived_time;
        iter = n;
      } in
      elim (Bool-cases (d.lt nought remaining)) [
        | inl below ↦
            let (vs, w, run, all) = collect_lem m window_size usage ns waittime k.1 in
            (valid ∷ vs, w, rw (found, below, run, collect) refl, ((k.0, below), all))
        | inr over ↦
            let (vs, w, run, all) =
              collect_lem m window_size usage ns (fmin waittime (d.minus nought remaining)) k.1 in
            (vs, w, rw (found, over, run, collect) refl, all)
      ]

  pub approve_lem :
      (m : Clients W) (g : ℕ) (vs : List (ValidCandidate W)) (ns : List (Node W))
      → All (IsValid m) vs
      → NodesKnown m ns
      → (cs : List (Candidate W)) × (left : List (Node W)) × (approve m g vs ns ≡ some (cs, left))
        × AllKnown m cs
        × All (Fits m g) cs
        × NodesKnown m left
  unfolding approve
  approve_lem m g [] ns v k = ([], ns, refl, tt, tt, k)
  approve_lem m g (v ∷ vs) ns (h, hs) k =
      let name = v.iter.candidate.name in
      let (c, found, size) = Known-lookup m name h.0 in
      elim (Bool-cases (leb (add_size g c.gpu_sm_partition) sm_global_limit)) [
        | inl fits ↦
            let (cs, left, run, known, all, rest) =
              approve_lem m g vs (erase_node v.iter.node ns) hs (
                All-filter (λ n. Known m n.candidate.name) (λ n. not (n.node == v.iter.node)) ns
                  k) in
            (
              v.iter.candidate ∷ cs,
              left,
              rw (found, fits, run, approve) refl,
              (h.0, known),
              (rw size (leb→le _ _ fits), all),
              rest,
            )
        | inr big ↦
            let (cs, left, run, known, all, rest) = approve_lem m g vs ns hs k in
            (cs, left, rw (found, big, run, approve) refl, known, all, rest)
      ]

module _ {ℓ} {W : Type ℓ} ⦃d : Double W⦄ where
  -- The state after a pass, and what it chose.
  pub record Outcome (s t : Scheduler W) (cs : List (Candidate W)) : Type ℓ where
    pub invariant : Inv t cs
    pub fits : All (Fits s.client_info_map s.g_sm_occupied) cs
    pub same_tokens : t.token_takers ≡ s.token_takers
    pub same_occupied : t.g_sm_occupied ≡ s.g_sm_occupied

  finish-Outcome :
      (start : W) (s : Scheduler W) (cs : List (Candidate W)) (left : List (Node W)) (pass : Pass W)
      (t : Scheduler W)
      → Inv s []
      → AllKnown s.client_info_map cs
      → All (Fits s.client_info_map s.g_sm_occupied) cs
      → NodesKnown s.client_info_map left
      → finish start s (cs, left) ≡ some (pass, t)
      → Outcome s t (chosen pass)
  unfolding finish
  finish-Outcome start s [] left pass t v known fits nodes run =
      let quiet : Outcome s s [] = record {
        invariant = v;
        fits = tt;
        same_tokens = refl;
        same_occupied = refl;
      } in
      let (w, _, end) =
        >>=-eq-some (oldest_wait start s.history_list) (λ w. some (none_approved w, s)) run in
      subst (λ r. Outcome s r.1 (chosen r.0)) (some-injective _ _ end) quiet
  finish-Outcome start s (c ∷ cs) left pass t v known fits nodes run =
      let e = some-injective _ _ run in
      subst (λ r. Outcome s r.1 (chosen r.0)) e
        (record {
          invariant = record {
            sized = v.sized;
            takers = v.takers;
            waiting = nodes;
            pending = known;
            accounted = v.accounted;
          };
          fits = fits;
          same_tokens = refl;
          same_occupied = refl;
        })

  module _ (sort : List (ValidCandidate W) → List (ValidCandidate W))
      (permutes : (vs : List (ValidCandidate W)) → Permᴰ vs (sort vs)) where
    decide-Outcome :
        (start : W) (s : Scheduler W) (vs : List (ValidCandidate W)) (w : W) (pass : Pass W)
        (t : Scheduler W)
        → Inv s []
        → All (IsValid s.client_info_map) vs
        → decide sort start s (vs, w) ≡ some (pass, t)
        → Outcome s t (chosen pass)
    unfolding decide
    decide-Outcome start s [] w pass t v valid run =
        subst (λ r. Outcome s r.1 (chosen r.0)) (some-injective _ _ run)
          (record { invariant = v; fits = tt; same_tokens = refl; same_occupied = refl })
    decide-Outcome start s (x ∷ vs) w pass t v valid run =
        let m = s.client_info_map in
        let (cs, left, e, known, fits, nodes) =
          approve_lem m s.g_sm_occupied (sort (x ∷ vs)) s.candidates
            (All-Permᴰ (IsValid m) (permutes (x ∷ vs)) valid) v.waiting in
        finish-Outcome start s cs left pass t v known fits nodes (rw (e, ◌>>=◌) at run)

    -- A pass keeps the invariant, and each candidate that it approves fits, by itself, beside the
    -- partitions that are occupied. It changes neither the tokens nor `g_sm_occupied`.
    pub select_candidates-Outcome :
        (now : W) (s : Scheduler W) (pass : Pass W) (t : Scheduler W)
        → Inv s []
        → select_candidates sort now s ≡ some (pass, t)
        → Outcome s t (chosen pass)
    unfolding select_candidates
    select_candidates-Outcome now s pass t v run =
        let start = d.minus now s.window_size in
        let hs = within_window start s.history_list in
        let s' = record s { history_list = hs } in
        let size = if d.lt start nought then now else s.window_size in
        let v' : Inv s' [] = record {
          sized = v.sized;
          takers = v.takers;
          waiting = v.waiting;
          pending = v.pending;
          accounted = v.accounted;
        } in
        let (vs, w, e, valid) =
          collect_lem s.client_info_map size (usage_from start hs []) s.candidates
            (d.from_int (pos 2000)) v.waiting in
        let o = decide-Outcome start s' vs w pass t v' valid (rw (e, ◌>>=◌) at run) in
        record {
          invariant = o.invariant;
          fits = o.fits;
          same_tokens = o.same_tokens;
          same_occupied = o.same_occupied;
        }
