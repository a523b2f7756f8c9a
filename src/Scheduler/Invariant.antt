-- ===== src/Scheduler/Invariant.antt =====
-- What holds in every reachable state of the scheduler: each name that is looked up has a client, and
-- `g_sm_occupied` is the sum of the partitions of the tokens that are out.
use mathlib.Core.Path.{subst}
use mathlib.Core.Option.{some-injective}
use fa_st_manager.Common.{
  ◌%◌, ◌^◌, ◌<◌, ◌≡◌, refl, Bool, true, false, List, [], ◌∷◌, some, Name, arith, All, ap,
  Bool-cases, is_empty, ◌||◌, inl, leb, inr, not,
}
use fa_st_manager.Double.{Double}
use fa_st_manager.Scheduler.State.{Candidate, Clients, Scheduler, Node, add_size, sm_global_limit}
use fa_st_manager.Scheduler.Tokens.{
  update_tokens, remove_ifexists, scan_candidates, take_back, take_min,
}
use fa_st_manager.Scheduler.Parts.{total, AllKnown, AllSized, Known-lookup, Known, size_of, part}
use fa_st_manager.Scheduler.Accounting.{
  expire_lem, remove_named_lem, take_min_lem, any_expired, young,
}

module _ {ℓ} {W : Type ℓ} where
  abbrev pub NodesKnown : Clients W → List (Node W) → Type 0
  NodesKnown m ns = All (λ n. Known m n.candidate.name) ns

  pub record Inv (s : Scheduler W) (cs : List (Candidate W)) : Type 0 where
    pub sized : AllSized s.client_info_map
    pub takers : AllKnown s.client_info_map s.token_takers
    pub waiting : NodesKnown s.client_info_map s.candidates
    pub pending : AllKnown s.client_info_map cs
    pub accounted : s.g_sm_occupied ≡ total s.client_info_map s.token_takers % 2 ^ 64

module _ {ℓ} {W : Type ℓ} ⦃d : Double W⦄ where
  pub update_tokens-Inv :
      (now : W) (s : Scheduler W) (cs : List (Candidate W))
      → Inv s cs
      → (wait : Bool) × (t : Scheduler W) × (update_tokens now s ≡ some (wait, t)) × Inv t cs
  unfolding update_tokens
  update_tokens-Inv now s cs v = elim (Bool-cases (is_empty s.token_takers)) [
    | inl e ↦ (false, s, rw (e, update_tokens) refl, v)
    | inr e ↦
        let (g', run, acc, known) =
          expire_lem s.client_info_map v.sized now s.token_takers s.g_sm_occupied 0 v.takers
            (omega (arith, v.accounted)) in
        (
          not (any_expired now s.token_takers),
          record s { token_takers = young now s.token_takers; g_sm_occupied = g' },
          rw (e, run, update_tokens) refl,
          record {
            sized = v.sized;
            takers = known;
            waiting = v.waiting;
            pending = v.pending;
            accounted = omega arith;
          },
        )
  ]

  pub remove_ifexists-Inv :
      (name : Name) (s : Scheduler W) (cs : List (Candidate W))
      → Inv s cs
      → (gone : Bool) × (t : Scheduler W) × (remove_ifexists name s ≡ some (gone, t))
        × Inv t cs
        × (t.client_info_map ≡ s.client_info_map)
  unfolding remove_ifexists
  remove_ifexists-Inv name s cs v =
      let (gone, rest, g', run, acc, known) =
        remove_named_lem s.client_info_map v.sized name s.token_takers s.g_sm_occupied 0 v.takers
          (omega (arith, v.accounted)) in
      (
        gone,
        record s { token_takers = rest; g_sm_occupied = g' },
        rw (run, remove_ifexists) refl,
        record {
          sized = v.sized;
          takers = known;
          waiting = v.waiting;
          pending = v.pending;
          accounted = omega arith;
        },
        refl,
      )

  pub scan_candidates-Inv :
      (ns : List (Node W)) (s : Scheduler W) (cs : List (Candidate W))
      → NodesKnown s.client_info_map ns
      → Inv s cs
      → (found : Bool) × (t : Scheduler W) × (scan_candidates ns s ≡ some (found, t)) × Inv t cs
  unfolding scan_candidates
  scan_candidates-Inv [] s cs k v = (false, s, refl, v)
  scan_candidates-Inv (n ∷ ns) s cs k v =
      let (gone, t, run, v', same) = remove_ifexists-Inv n.candidate.name s cs v in
      let (c, found, _) = Known-lookup s.client_info_map n.candidate.name k.0 in
      let (again, u, rest, w) = scan_candidates-Inv ns t cs (rw same k.1) v' in
      elim (Bool-cases
        (gone || leb (add_size c.gpu_sm_partition t.g_sm_occupied) sm_global_limit)) [
          | inl stop ↦ (true, t, rw (run, found, stop, scan_candidates) refl, v')
          | inr on ↦ (again, u, rw (run, found, on, rest, scan_candidates) refl, w)
        ]

  pub take_back-Inv :
      (s : Scheduler W) (ts : List (Candidate W)) (cs : List (Candidate W)) {t : Scheduler W}
      → s.token_takers ≡ ts
      → Inv s cs
      → take_back s ts ≡ some t
      → Inv t cs
  unfolding take_back
  take_back-Inv s [] cs e v run = cc
  take_back-Inv s (t ∷ ts) cs e v run =
      let m = s.client_info_map in
      let known : AllKnown m (t ∷ ts) = subst (AllKnown m) e v.takers in
      let (sum, kb, kr) = take_min_lem m v.sized t ts known.0 known.1 in
      let (c, found, size) = Known-lookup m (take_min t ts).0.name kb in
      let out : size_of (part m (take_min t ts).0.name) < 2 ^ 64 = v.sized _ in
      let all : total m s.token_takers ≡ total m (t ∷ ts) = ap (total m) e in
      subst (λ u. Inv u cs) (some-injective _ _ (rw found at run))
        (record {
          sized = v.sized;
          takers = kr;
          waiting = v.waiting;
          pending = v.pending;
          accounted = omega (arith, v.accounted);
        })
