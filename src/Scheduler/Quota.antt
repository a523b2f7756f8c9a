-- ===== src/Scheduler/Quota.antt =====
-- The self-adaptive quota and the return of a token.
use fa_st_manager.Common.{
  ◌≡◌, refl, Bool, true, false, List, [], ◌∷◌, ◌++◌, none, some, Name, arith, name_eq, ◌||◌,
}
use fa_st_manager.Double.{Double, IsOrdered, fmin}
use fa_st_manager.Scheduler.Client.{
  ClientInfo, History, get_quota, update_return_time, update_latest, blended,
}

module _ {ℓ} {W : Type ℓ} ⦃d : Double W⦄ where
  -- `get_quota` gives the static quota if no burst is known. Otherwise the quota is at most the
  -- maximum, and at least the minimum unless the maximum is below that. The quota is remembered and
  -- nothing else of the client changes.
  pub get_quota_bounds :
      (laws : IsOrdered W) (c : ClientInfo W)
      → let (q, c') = get_quota c in
        (c' ≡ record c { quota = q })
        × (d.lt c.burst d.tiny ≡ true → q ≡ c.base_quota)
        × (d.lt c.burst d.tiny ≡ false
            → (d.lt c.max_quota q ≡ false)
              × (d.lt c.max_quota c.min_quota ≡ false → d.lt q c.min_quota ≡ false))
  unfolding get_quota
  get_quota_bounds laws c =
      let b = blended c in
      ground (
        arith,
        laws.lt_irrefl c.max_quota,
        laws.lt_irrefl c.min_quota,
        laws.lt_irrefl b,
        laws.lt_trans b c.min_quota b,
        laws.lt_trans c.min_quota b c.min_quota,
        laws.lt_trans c.max_quota b c.max_quota,
        laws.lt_trans c.max_quota c.min_quota c.max_quota,
      )

  abbrev pub named : Name → List (History W) → Bool
  named n [] = false
  named n (h ∷ hs) = name_eq h.name n || named n hs

  update_latest-none :
      (n : Name) (f : History W → History W) (hs : List (History W))
      → named n hs ≡ false
      → update_latest n f hs ≡ none
  unfolding update_latest
  update_latest-none n f [] h = refl
  update_latest-none n f (x ∷ hs) h = ground (arith, update_latest-none n f hs)

  update_latest-some :
      (n : Name) (f : History W → History W) (older newer : List (History W)) (h : History W)
      → name_eq h.name n ≡ true
      → named n newer ≡ false
      → update_latest n f (older ++ (h ∷ newer)) ≡ some (older ++ (f h ∷ newer), f h)
  unfolding update_latest
  update_latest-some n f [] newer h hit clear = ground (arith, update_latest-none n f newer)
  update_latest-some n f (x ∷ older) newer h hit clear =
      ground (arith, update_latest-some n f older newer h hit clear)

  -- When a client comes back, the end of its latest entry in the history moves to the earlier of the
  -- present and the old end plus the overuse; all other entries stay, and the client remembers the
  -- overuse and the length of the entry.
  pub update_return_time_latest :
      (now overuse : W) (c : ClientInfo W) (older newer : List (History W)) (h : History W)
      → name_eq h.name c.name ≡ true
      → named c.name newer ≡ false
      → let end = fmin now (d.plus h.end overuse) in
        update_return_time now overuse c (older ++ (h ∷ newer)) ≡ (
          record c { latest_overuse = overuse; latest_actual_usage = d.minus end h.start },
          older ++ (record h { end = end } ∷ newer),
        )
  unfolding update_return_time
  update_return_time_latest now overuse c older newer h hit clear =
      rw
        (
          update_latest-some c.name (λ x. record x { end = fmin now (d.plus x.end overuse) }) older
              newer h hit clear,
          update_return_time,
        )
        refl
