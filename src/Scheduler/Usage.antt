-- ===== src/Scheduler/Usage.antt =====
-- The usage of a client in the time window of `select_candidates` of src/scheduler.cpp.
use fa_st_manager.Scheduler.Client.{History}
use fa_st_manager.Scheduler.Select.{usage_from, usage_of}
use fa_st_manager.Double.{Double, fmax}
use fa_st_manager.Common.{
  List, [], ◌∷◌, refl, Name, if◌then◌else◌, name_eq, ◌≡◌, Bool-cases, inl, insert, arith,
  lookup-insert, ap, name_eq_iff, ◌∙◌, inr, text_eq,
}

module _ {ℓ} {W : Type ℓ} ⦃d : Double W⦄ where
  -- What the entries of one client add up to, from the start of the window on, in the order of the history.
  abbrev pub used_by : Name → W → List (History W) → W → W
  used_by name window_start [] used = used
  used_by name window_start (h ∷ hs) used = used_by name window_start hs (
      if name_eq h.name name then d.plus used (d.minus h.end (fmax h.start window_start)) else used)

  -- The one map that `select_candidates` fills for all clients holds, for each client, the sum of its own
  -- entries; a client without entries has what it had before.
  pub usage_from_lem :
      (name : Name) (window_start : W) (hs : List (History W)) (usage : List (Name × W))
      → usage_of name (usage_from window_start hs usage)
        ≡ used_by name window_start hs (usage_of name usage)
  unfolding usage_from
  usage_from_lem name window_start [] usage = refl
  usage_from_lem name window_start (h ∷ hs) usage = elim (Bool-cases (name_eq h.name name)) [
    | inl e ↦
        let x = d.plus (usage_of h.name usage) (d.minus h.end (fmax h.start window_start)) in
        let new : usage_of name (insert h.name x usage) ≡ x =
          ground (arith, e, lookup-insert h.name name x usage) in
        let old : usage_of h.name usage ≡ usage_of name usage =
          ap (λ n. usage_of n usage) ((name_eq_iff h.name name).0 e) in
        usage_from_lem name window_start hs (insert h.name x usage)
        ∙ ap (used_by name window_start hs) (new ∙ rw (e, old) refl)
    | inr e ↦
        let x = d.plus (usage_of h.name usage) (d.minus h.end (fmax h.start window_start)) in
        let same : usage_of name (insert h.name x usage) ≡ usage_of name usage =
          ground (arith, e, lookup-insert h.name name x usage) in
        usage_from_lem name window_start hs (insert h.name x usage)
        ∙ ap (used_by name window_start hs) (same ∙ rw e refl)
  ]
