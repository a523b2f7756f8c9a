-- ===== src/Scheduler/Progress.antt =====
-- What a pass of `select_candidates` of src/scheduler.cpp owes to a candidate that waits.
use fa_st_manager.Common.Int.{pos}
use fa_st_manager.Scheduler.Parts.{Known-lookup, size_of, part}
use fa_st_manager.Scheduler.Limits.{fits, approve_lem_each, candidate_of, others}
use fa_st_manager.Scheduler.Invariant.{NodesKnown, Inv}
use fa_st_manager.Scheduler.Selection.{IsValid, collect_lem, All-Permᴰ}
use fa_st_manager.Scheduler.Client.{ClientInfo}
use fa_st_manager.Scheduler.Select.{
  collect, finish, decide, select_candidates, approved, usage_of, within_window, usage_from,
}
use fa_st_manager.Scheduler.State.{
  ValidCandidate, Clients, Scheduler, Candidate, Node, add_size, sm_global_limit,
}
use mathlib.Core.List.{Permᴰ, Memᴰ}
use mathlib.Core.List.Memᴰ
use mathlib.Core.Path.{subst}
use fa_st_manager.Common.{
  leb, le→leb, sym, text_eq, ◌>>=◌, ◌≡◌, ◌≤◌, List, [], ◌∷◌, some, true, Bool, refl, inl, inr,
  filter, ◌∙◌, Bool-cases, Name, All, lookup, if◌then◌else◌, map,
}
use fa_st_manager.Double.{Double, nought, fmin}
use fa_st_manager.Scheduler.Usage.{used_by, usage_from_lem}

module _ {ℓ} {A : Type ℓ} where
  pub Memᴰ-Permᴰ : {a : A} {xs ys : List A} → Permᴰ xs ys → Memᴰ a xs → Memᴰ a ys
  Memᴰ-Permᴰ Permᴰ.nil m = m
  Memᴰ-Permᴰ (Permᴰ.cons e p) (Memᴰ.head q) = Memᴰ.head (q ∙ e)
  Memᴰ-Permᴰ (Permᴰ.cons e p) (Memᴰ.tail m) = Memᴰ.tail (Memᴰ-Permᴰ p m)
  Memᴰ-Permᴰ (Permᴰ.swap e f) (Memᴰ.head q) = Memᴰ.tail (Memᴰ.head (q ∙ e))
  Memᴰ-Permᴰ (Permᴰ.swap e f) (Memᴰ.tail (Memᴰ.head q)) = Memᴰ.head (q ∙ f)
  Memᴰ-Permᴰ (Permᴰ.swap e f) (Memᴰ.tail (Memᴰ.tail m)) = Memᴰ.tail (Memᴰ.tail m)
  Memᴰ-Permᴰ (Permᴰ.trans p q) m = Memᴰ-Permᴰ q (Memᴰ-Permᴰ p m)

  Memᴰ-filter : {a : A} (p : A → Bool) (xs : List A) → p a ≡ true → Memᴰ a xs → Memᴰ a (filter p xs)
  Memᴰ-filter p [] h m = elim m [ ]
  Memᴰ-filter {a} p (x ∷ xs) h (Memᴰ.head q) =
      let h' : p x ≡ true = subst (λ y. p y ≡ true) q h in rw h' (Memᴰ.head q)
  Memᴰ-filter p (x ∷ xs) h (Memᴰ.tail m) = elim (Bool-cases (p x)) [
    | inl e ↦ rw e (Memᴰ.tail (Memᴰ-filter p xs h m))
    | inr e ↦ rw e (Memᴰ-filter p xs h m)
  ]

module _ {ℓ} {W : Type ℓ} ⦃d : Double W⦄ where
  -- What a client may still use: its part of the window, less what it has used.
  abbrev pub left : ClientInfo W → W → W → W
  left c window_size used = d.minus (d.times c.max_frac window_size) used

  -- A waiting candidate below its limit is among the valid ones.
  collect-Memᴰ :
      (m : Clients W) (window_size : W) (usage : List (Name × W)) (ns : List (Node W))
      (waittime : W) (n : Node W) (c : ClientInfo W)
      → NodesKnown m ns
      → Memᴰ n ns
      → lookup n.candidate.name m ≡ some c
      → d.lt nought (left c window_size (usage_of n.candidate.name usage)) ≡ true
      → (vs : List (ValidCandidate W)) × (w : W) × (v : ValidCandidate W) × (collect m window_size
            usage ns waittime
          ≡ some (vs, w))
        × All (IsValid m) vs
        × Memᴰ v vs
        × (v.iter ≡ n)
  unfolding collect
  collect-Memᴰ m window_size usage [] waittime n c k h found below = elim h [ ]
  collect-Memᴰ m window_size usage (x ∷ ns) waittime n c k (Memᴰ.head q) found below =
      let there : lookup x.candidate.name m ≡ some c =
        subst (λ (y : Node W). lookup y.candidate.name m ≡ some c) q found in
      let used = usage_of x.candidate.name usage in
      let yes' : d.lt nought (left c window_size used) ≡ true =
        subst
          (λ (y : Node W).
            d.lt nought (left c window_size (usage_of y.candidate.name usage)) ≡ true)
          q below in
      let (vs, w, run, all) = collect_lem m window_size usage ns waittime k.1 in
      let valid : ValidCandidate W = record {
        missing = d.minus (d.times c.min_frac window_size) used;
        remaining = left c window_size used;
        usage = used;
        arrived_time = x.candidate.arrived_time;
        iter = x;
      } in
      (
        valid ∷ vs,
        w,
        valid,
        rw (there, yes', run, collect) refl,
        ((k.0, yes'), all),
        Memᴰ.head refl,
        sym q,
      )
  collect-Memᴰ m window_size usage (x ∷ ns) waittime n c k (Memᴰ.tail h) found below =
      let name = x.candidate.name in
      let (o, there, _) = Known-lookup m name k.0 in
      let used = usage_of name usage in
      let remaining = left o window_size used in
      let valid : ValidCandidate W = record {
        missing = d.minus (d.times o.min_frac window_size) used;
        remaining = remaining;
        usage = used;
        arrived_time = x.candidate.arrived_time;
        iter = x;
      } in
      elim (Bool-cases (d.lt nought remaining)) [
        | inl yes' ↦
            let (vs, w, v, run, all, mem, at) =
              collect-Memᴰ m window_size usage ns waittime n c k.1 h found below in
            (
              valid ∷ vs,
              w,
              v,
              rw (there, yes', run, collect) refl,
              ((k.0, yes'), all),
              Memᴰ.tail mem,
              at,
            )
        | inr no' ↦
            let (vs, w, v, run, all, mem, at) =
              collect-Memᴰ m window_size usage ns (fmin waittime (d.minus nought remaining)) n c k.1
                h found below in
            (vs, w, v, rw (there, no', run, collect) refl, all, mem, at)
      ]

  finish-approved :
      (start : W) (s : Scheduler W) (cs : List (Candidate W)) (rest : List (Node W))
      (c : Candidate W)
      → Memᴰ c cs
      → finish start s (cs, rest) ≡ some (approved cs, record s { candidates = rest })
  unfolding finish
  finish-approved start s [] rest c m = elim m [ ]
  finish-approved start s (x ∷ cs) rest c m = refl

  module _ (sort : List (ValidCandidate W) → List (ValidCandidate W))
      (permutes : (vs : List (ValidCandidate W)) → Permᴰ vs (sort vs)) where
    decide-approves :
        (start : W) (s : Scheduler W) (vs : List (ValidCandidate W)) (w : W) (v : ValidCandidate W)
        → All (IsValid s.client_info_map) vs
        → Memᴰ v vs
        → fits s.client_info_map s.g_sm_occupied v ≡ true
        → (cs : List (Candidate W)) × (t : Scheduler W) × (decide sort start s (vs, w)
            ≡ some (approved cs, t))
          × Memᴰ v.iter.candidate cs
    unfolding decide
    decide-approves start s [] w v valid mem fit = elim mem [ ]
    decide-approves start s (x ∷ vs) w v valid mem fit =
        let m = s.client_info_map in
        let g = s.g_sm_occupied in
        let sorted = sort (x ∷ vs) in
        let run =
          approve_lem_each m g sorted s.candidates
            (All-Permᴰ (IsValid m) (permutes (x ∷ vs)) valid) in
        let chosen' = map candidate_of (filter (fits m g) sorted) in
        let rest = others (filter (fits m g) sorted) s.candidates in
        let mem' =
          Memᴰ.map candidate_of
            (Memᴰ-filter (fits m g) sorted fit (Memᴰ-Permᴰ (permutes (x ∷ vs)) mem)) in
        (
          chosen',
          record s { candidates = rest },
          rw (run, ◌>>=◌) (finish-approved start s chosen' rest v.iter.candidate mem'),
          mem',
        )

    -- A candidate that waits, that has used less than its share of the window and whose partition fits
    -- beside what is occupied is approved by the next pass, whatever else waits.
    pub select_candidates-approves :
        (now : W) (s : Scheduler W) (n : Node W) (c : ClientInfo W)
        → Inv s []
        → Memᴰ n s.candidates
        → lookup n.candidate.name s.client_info_map ≡ some c
        → let start = d.minus now s.window_size in
          let size = if d.lt start nought then now else s.window_size in
          let used = used_by n.candidate.name start (within_window start s.history_list) nought in
          d.lt nought (left c size used) ≡ true
          → add_size s.g_sm_occupied c.gpu_sm_partition ≤ sm_global_limit
          → (cs : List (Candidate W)) × (t : Scheduler W) × (select_candidates sort now s
              ≡ some (approved cs, t))
            × Memᴰ n.candidate cs
    unfolding select_candidates
    select_candidates-approves now s n c v mem found below fit =
        let start = d.minus now s.window_size in
        let hs = within_window start s.history_list in
        let s' = record s { history_list = hs } in
        let m = s.client_info_map in
        let size = if d.lt start nought then now else s.window_size in
        let below' : d.lt nought (left c size (usage_of n.candidate.name (usage_from start hs [])))
            ≡ true =
          rw (usage_from_lem n.candidate.name start hs []) below in
        let (vs, w, x, run, all, mem', at) =
          collect-Memᴰ m size (usage_from start hs []) s.candidates (d.from_int (pos 2000)) n c
            v.waiting mem found below' in
        let fit' : fits m s.g_sm_occupied x ≡ true =
          subst
            (λ (y : Node W).
              leb (add_size s.g_sm_occupied (size_of (part m y.candidate.name))) sm_global_limit
              ≡ true)
            (sym at) (rw (found, part) (le→leb _ _ fit)) in
        let (cs, t, run', mem'') = decide-approves start s' vs w x all mem' fit' in
        (cs, t, rw (run, ◌>>=◌) run', subst (λ (y : Node W). Memᴰ y.candidate cs) at mem'')
