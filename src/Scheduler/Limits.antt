-- ===== src/Scheduler/Limits.antt =====
-- The limit of 100 percent on the partitions: what a pass and the tokens it leads to keep of it.
use fa_st_manager.Comm.Message.{prepare_response, rsp_msg_len, rsp_quota}
use fa_st_manager.Scheduler.Client.{get_quota}
use mathlib.Core.Path.{subst}
use mathlib.Core.Option.{some-injective}
use fa_st_manager.Common.{
  ◌>>=◌, ℕ, ◌%◌, ◌^◌, ◌≡◌, ◌≤◌, refl, Bool, true, false, ◌==◌, ◌||◌, nat_eq, List, [], ◌∷◌, map,
  some, arith, leb, All, not, filter, is_empty, Bool-cases, ◌&&◌, inl, ap, inr, Option-cases,
  replicate, sym, ◌∙◌,
}
use fa_st_manager.Double.{Double}
use fa_st_manager.Scheduler.State.{
  Candidate, Clients, Scheduler, Node, ValidCandidate, add_size, sm_global_limit,
}
use fa_st_manager.Scheduler.Select.{approve, erase_node}
use fa_st_manager.Scheduler.Tokens.{give_token, update_tokens}
use fa_st_manager.Scheduler.Parts.{
  Known-lookup, Known, size_of, part, SameParts, total, part-insert,
}
use fa_st_manager.Scheduler.Accounting.{young, any_expired, expire_lem}
use fa_st_manager.Scheduler.Invariant.{Inv}
use fa_st_manager.Scheduler.Selection.{Fits, IsValid}

module _ {ℓ} {W : Type ℓ} ⦃d : Double W⦄ where
  abbrev pub fits : Clients W → ℕ → ValidCandidate W → Bool
  fits m g v = leb (add_size g (size_of (part m v.iter.candidate.name))) sm_global_limit

  abbrev pub candidate_of : ValidCandidate W → Candidate W
  candidate_of v = v.iter.candidate

  abbrev pub is_chosen : ℕ → List (ValidCandidate W) → Bool
  is_chosen i [] = false
  is_chosen i (v ∷ vs) = (i == v.iter.node) || is_chosen i vs

  -- The waiting candidates that are not among the chosen ones.
  abbrev pub others : List (ValidCandidate W) → List (Node W) → List (Node W)
  others chosen ns = filter (λ n. not (is_chosen n.node chosen)) ns

  others-none : (ns : List (Node W)) → others [] ns ≡ ns
  others-none [] = refl
  others-none (n ∷ ns) = ap (◌∷◌ n) (others-none ns)

  others-cons :
      (v : ValidCandidate W) (vs : List (ValidCandidate W)) (ns : List (Node W))
      → others vs (erase_node v.iter.node ns) ≡ others (v ∷ vs) ns
  others-cons v vs [] = refl
  others-cons v vs (n ∷ ns) = ground (arith, others-cons v vs ns)

  -- A pass approves, in the order of the priority, exactly the valid candidates that fit one by one
  -- beside what was occupied before the pass, without adding up what it approves, and leaves waiting
  -- exactly the candidates that are not among these, in their order. Each valid candidate has a client.
  pub approve_lem_each :
      (m : Clients W) (g : ℕ) (vs : List (ValidCandidate W)) (ns : List (Node W))
      → All (IsValid m) vs
      → approve m g vs ns
        ≡ some (map candidate_of (filter (fits m g) vs), others (filter (fits m g) vs) ns)
  unfolding approve
  approve_lem_each m g [] ns v = ap (λ rest. some ([], rest)) (sym (others-none ns))
  approve_lem_each m g (v ∷ vs) ns (h, hs) =
      let (c, found, size) = Known-lookup m v.iter.candidate.name h.0 in
      elim (Bool-cases (fits m g v)) [
        | inl yes' ↦
            let same : leb (add_size g c.gpu_sm_partition) sm_global_limit ≡ true =
              subst (λ n. leb (add_size g n) sm_global_limit ≡ true) size yes' in
            let left = others-cons v (filter (fits m g) vs) ns in
            rw (found, same, approve_lem_each m g vs (erase_node v.iter.node ns) hs, yes', left)
              refl
        | inr no' ↦
            let same : leb (add_size g c.gpu_sm_partition) sm_global_limit ≡ false =
              subst (λ n. leb (add_size g n) sm_global_limit ≡ false) size no' in
            rw (found, same, approve_lem_each m g vs ns hs, no') refl
      ]

  pub give_token_occupied :
      (now later : W) (c : Candidate W) (s : Scheduler W) {t : Scheduler W}
      → Known s.client_info_map c.name
      → give_token now later c s ≡ some t
      → (t.g_sm_occupied ≡ add_size s.g_sm_occupied (size_of (part s.client_info_map c.name)))
        × SameParts s.client_info_map t.client_info_map
  unfolding give_token
  give_token_occupied now later c s {t} known run =
      let m = s.client_info_map in
      let (info, found, size) = Known-lookup m c.name known in
      let same = part-insert m c.name info (get_quota info).1 found refl in
      elim (Option-cases (
        prepare_response (replicate rsp_msg_len 0) c.req_id
          (rsp_quota (d.to_bits (get_quota info).0)))) [
            | inl e ↦ let bad = rw (found, e, ◌>>=◌) at run in cc bad
            | inr (out, e) ↦
                subst
                  (λ u.
                    (u.g_sm_occupied ≡ add_size s.g_sm_occupied (size_of (part m c.name)))
                    × SameParts m u.client_info_map)
                  (some-injective _ _ (rw (found, e, ◌>>=◌) at run))
                  (ap (add_size s.g_sm_occupied) (sym size), same)
          ]

  -- One token for an approved candidate keeps the occupied partitions within the limit.
  pub give_token-le :
      (now later : W) (c : Candidate W) (s : Scheduler W) {t : Scheduler W}
      → Known s.client_info_map c.name
      → Fits s.client_info_map s.g_sm_occupied c
      → give_token now later c s ≡ some t
      → t.g_sm_occupied ≤ sm_global_limit
  give_token-le now later c s known fit run =
      omega (arith, (give_token_occupied now later c s known run).0)

  young-empty : (now : W) (ts : List (Candidate W)) → is_empty ts ≡ true → young now ts ≡ ts
  young-empty now [] e = refl
  young-empty now (t ∷ ts) e = cc

  -- `update_tokens` takes back exactly the tokens whose time is over, in a state where the invariant
  -- holds, and asks to wait exactly if tokens are out and none was taken back. What is occupied
  -- afterwards is the sum of the partitions of the tokens that stay.
  pub update_tokens_lem :
      (now : W) (s : Scheduler W) (cs : List (Candidate W))
      → Inv s cs
      → (g' : ℕ) × (update_tokens now s
          ≡ some (
            not (is_empty s.token_takers) && not (any_expired now s.token_takers),
            record s { token_takers = young now s.token_takers; g_sm_occupied = g' },
          ))
        × (g' ≡ total s.client_info_map (young now s.token_takers) % 2 ^ 64)
  unfolding update_tokens
  update_tokens_lem now s cs v = elim (Bool-cases (is_empty s.token_takers)) [
    | inl e ↦
        let same = young-empty now s.token_takers e in
        (
          s.g_sm_occupied,
          rw (e, update_tokens)
              (ap
                (λ (ts : List (Candidate W)).
                  some (false, record s { token_takers = ts; g_sm_occupied = s.g_sm_occupied }))
                (sym same)),
          v.accounted ∙ ap (λ ts. total s.client_info_map ts % 2 ^ 64) (sym same),
        )
    | inr e ↦
        let (g', run, acc, known) =
          expire_lem s.client_info_map v.sized now s.token_takers s.g_sm_occupied 0 v.takers
            (omega (arith, v.accounted)) in
        (g', rw (e, run, update_tokens) refl, omega arith)
  ]
