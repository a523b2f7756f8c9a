-- ===== src/Scheduler/Overrun.antt =====
-- What the tokens of a pass of `select_candidates` of src/scheduler.cpp occupy, when each of its valid
-- candidates fits by itself.
use mathlib.Core.List.{Memᴰ, Permᴰ}
use mathlib.Core.Option.{some-injective}
use mathlib.Core.Path.{subst}
use fa_st_manager.Common.Int.{pos}
use fa_st_manager.Common.{
  ℕ, ◌+◌, ◌^◌, ◌<◌, ◌≡◌, refl, ap, sym, ◌∙◌, true, List, [], ◌∷◌, map, filter, some, All, arith,
  ◌>>=◌, if◌then◌else◌,
}
use fa_st_manager.Double.{Double, nought}
use fa_st_manager.Scheduler.Granted.{give_token-HasToken}
use fa_st_manager.Scheduler.Invariant.{Inv}
use fa_st_manager.Scheduler.Limits.{
  approve_lem_each, candidate_of, fits, give_token_occupied, others,
}
use fa_st_manager.Scheduler.Parts.{
  AllKnown, AllKnown-SameParts, part, size_of, total, total-SameParts,
}
use fa_st_manager.Scheduler.Progress.{Memᴰ-Permᴰ}
use fa_st_manager.Scheduler.Select.{
  approved, collect, decide, finish, select_candidates, usage_from, within_window,
}
use fa_st_manager.Scheduler.Progress.{Memᴰ-Permᴰ}
use fa_st_manager.Scheduler.Selection.{All-Permᴰ, IsValid, collect_lem}
use fa_st_manager.Scheduler.State.{Candidate, Clients, Scheduler, ValidCandidate}
use fa_st_manager.Scheduler.Tokens.{give_tokens}

module _ {ℓ} {W : Type ℓ} ⦃d : Double W⦄ where
  give_tokens_occupied :
      (clock : ℕ → W × W) (i : ℕ) (cs : List (Candidate W)) (s : Scheduler W)
      → AllKnown s.client_info_map cs
      → s.g_sm_occupied + total s.client_info_map cs < 2 ^ 64
      → (u : Scheduler W) × (give_tokens clock i cs s ≡ some u)
        × (u.g_sm_occupied ≡ s.g_sm_occupied + total s.client_info_map cs)
  unfolding give_tokens
  give_tokens_occupied clock i [] s known small = (s, refl, omega arith)
  give_tokens_occupied clock i (c ∷ cs) s (k, known) small =
      let m = s.client_info_map in
      let (s', one, _, _, _) = give_token-HasToken (clock i).0 (clock i).1 c s k in
      let (g, same) = give_token_occupied (clock i).0 (clock i).1 c s k one in
      let rest_same = total-SameParts m s'.client_info_map cs same in
      let (u, rest, occupied) =
        give_tokens_occupied clock (i + 1) cs s'
          (AllKnown-SameParts m s'.client_info_map cs same known) (omega (arith, g, rest_same)) in
      (u, rw (one, ◌>>=◌) rest, omega (arith, occupied, g, rest_same))

  filter-all :
      (m : Clients W) (g : ℕ) (vs : List (ValidCandidate W))
      → All (λ v. fits m g v ≡ true) vs
      → filter (fits m g) vs ≡ vs
  filter-all m g [] h = refl
  filter-all m g (v ∷ vs) (h, hs) = rw h (ap (◌∷◌ v) (filter-all m g vs hs))

  AllKnown-valid :
      (m : Clients W) (vs : List (ValidCandidate W))
      → All (IsValid m) vs
      → AllKnown m (map candidate_of vs)
  AllKnown-valid m [] h = tt
  AllKnown-valid m (v ∷ vs) (h, hs) = (h.0, AllKnown-valid m vs hs)

  total-Permᴰ :
      (m : Clients W) {vs us : List (ValidCandidate W)}
      → Permᴰ vs us
      → total m (map candidate_of vs) ≡ total m (map candidate_of us)
  total-Permᴰ m Permᴰ.nil = refl
  total-Permᴰ m (Permᴰ.cons e p) = omega (
    arith,
    ap (λ (v : ValidCandidate W). size_of (part m v.iter.candidate.name)) e,
    total-Permᴰ m p,
  )
  total-Permᴰ m (Permᴰ.swap e f) = omega (
    arith,
    ap (λ (v : ValidCandidate W). size_of (part m v.iter.candidate.name)) e,
    ap (λ (v : ValidCandidate W). size_of (part m v.iter.candidate.name)) f,
  )
  total-Permᴰ m (Permᴰ.trans p q) = total-Permᴰ m p ∙ total-Permᴰ m q

  module _ (sort : List (ValidCandidate W) → List (ValidCandidate W))
      (permutes : (vs : List (ValidCandidate W)) → Permᴰ vs (sort vs)) where
    finish-approves :
        (start : W) (s : Scheduler W) (vs us : List (ValidCandidate W)) (v : ValidCandidate W)
        → Permᴰ (v ∷ vs) us
        → (t : Scheduler W) × (finish start s (map candidate_of us, others us s.candidates)
            ≡ some (approved (map candidate_of us), t))
          × (t.client_info_map ≡ s.client_info_map)
          × (t.g_sm_occupied ≡ s.g_sm_occupied)
    unfolding finish
    finish-approves start s vs [] v p = elim (Memᴰ-Permᴰ p (Memᴰ.head refl)) [ ]
    finish-approves start s vs (u ∷ us) v p =
        (record s { candidates = others (u ∷ us) s.candidates }, refl, refl, refl)

    decide_overruns :
        (start w : W) (clock : ℕ → W × W) (s : Scheduler W) (v : ValidCandidate W)
        (vs : List (ValidCandidate W))
        → let m = s.client_info_map in
          All (IsValid m) (v ∷ vs)
          → All (λ x. fits m s.g_sm_occupied x ≡ true) (v ∷ vs)
          → s.g_sm_occupied + total m (map candidate_of (v ∷ vs)) < 2 ^ 64
          → (t : Scheduler W) × (u : Scheduler W) × (decide sort start s (v ∷ vs, w)
              ≡ some (approved (map candidate_of (sort (v ∷ vs))), t))
            × (give_tokens clock 0 (map candidate_of (sort (v ∷ vs))) t ≡ some u)
            × (u.g_sm_occupied ≡ s.g_sm_occupied + total m (map candidate_of (v ∷ vs)))
    unfolding decide
    decide_overruns start w clock s v vs valid fit small =
        let m = s.client_info_map in
        let g = s.g_sm_occupied in
        let us = sort (v ∷ vs) in
        let p = permutes (v ∷ vs) in
        let valid' = All-Permᴰ (IsValid m) p valid in
        let all = filter-all m g us (All-Permᴰ (λ x. fits m g x ≡ true) p fit) in
        let run = approve_lem_each m g us s.candidates valid' in
        let (t, done, same, same_g) = finish-approves start s vs us v p in
        let sum = total-Permᴰ m p in
        let (u, given, occupied) =
          give_tokens_occupied clock 0 (map candidate_of us) t
            (rw same (AllKnown-valid m us valid'))
            (rw (same, same_g) (omega (arith, small, sum))) in
        (t, u, rw (run, all, ◌>>=◌) done, given, occupied ∙ rw (same, same_g) (omega (arith, sum)))

    -- If each valid candidate of a pass of `select_candidates` fits by itself beside what is occupied, the
    -- pass approves all of them, and after its tokens what is occupied is the sum of what was and of all
    -- their partitions, whatever SM_GLOBAL_LIMIT is. The invariant holds before, some candidate is
    -- valid, and the sum is a `size_t`.
    pub pass_overruns :
        (now w : W) (clock : ℕ → W × W) (s : Scheduler W) (v : ValidCandidate W)
        (vs : List (ValidCandidate W))
        → Inv s []
        → let start = d.minus now s.window_size in
          let size = if d.lt start nought then now else s.window_size in
          let m = s.client_info_map in
          collect m size
              (usage_from start (within_window start s.history_list) [])
              s.candidates
              (d.from_int (pos 2000))
            ≡ some (v ∷ vs, w)
          → All (λ x. fits m s.g_sm_occupied x ≡ true) (v ∷ vs)
          → s.g_sm_occupied + total m (map candidate_of (v ∷ vs)) < 2 ^ 64
          → (t : Scheduler W) × (u : Scheduler W) × (select_candidates sort now s
              ≡ some (approved (map candidate_of (sort (v ∷ vs))), t))
            × (give_tokens clock 0 (map candidate_of (sort (v ∷ vs))) t ≡ some u)
            × (u.g_sm_occupied ≡ s.g_sm_occupied + total m (map candidate_of (v ∷ vs)))
    unfolding select_candidates
    pass_overruns now w clock s v vs inv collected fit small =
        let start = d.minus now s.window_size in
        let size = if d.lt start nought then now else s.window_size in
        let hs = within_window start s.history_list in
        let m = s.client_info_map in
        let (xs, _, run, valid) =
          collect_lem m size (usage_from start hs []) s.candidates (d.from_int (pos 2000))
            inv.waiting in
        let same = ap (λ r. r.0) (some-injective _ _ (sym run ∙ collected)) in
        let (t, u, pass, given, occupied) =
          decide_overruns start w clock (record s { history_list = hs }) v vs
            (subst (All (IsValid m)) same valid) fit small in
        (t, u, rw (collected, ◌>>=◌) pass, given, occupied)
