-- ===== src/Scheduler/Order.antt =====
-- Whether `schd_priority` is the strict order that `std::sort` wants.
use fa_st_manager.Common.{◌≡◌, true, false, arith, not}
use fa_st_manager.Double.{Double, IsOrdered, nought}
use fa_st_manager.Scheduler.State.{ValidCandidate}
use fa_st_manager.Scheduler.Priority.{schd_priority, share}

module _ {ℓ} {W : Type ℓ} ⦃d : Double W⦄ where
  -- The usage of the candidate is not exactly the required one.
  abbrev pub Decided : ValidCandidate W → Type 0
  Decided a = (d.lt nought a.missing ≡ not (d.lt a.missing nought))

  module _ (laws : IsOrdered W) where
    -- Among candidates that miss some usage or exceed the required one, the priority is irreflexive and
    -- transitive.
    pub schd_priority_order :
        (a b c : ValidCandidate W)
        → Decided a
        → Decided b
        → Decided c
        → (schd_priority a a ≡ false)
          × (schd_priority a b ≡ true → schd_priority b c ≡ true → schd_priority a c ≡ true)
    unfolding schd_priority
    schd_priority_order a b c ha hb hc = ground (
      arith,
      laws.lt_irrefl (share a),
      laws.lt_irrefl a.usage,
      laws.lt_trans (share c) (share b) (share a),
      laws.lt_trans a.usage b.usage c.usage,
    )

    -- With a candidate `b` that has exactly the required usage there are cycles: whenever `a` misses
    -- some usage, `c` exceeds the required one, and the usage falls from `a` over `b` to `c`, each of the
    -- three comes before another.
    pub schd_priority_cycle :
        (a b c : ValidCandidate W)
        → d.lt nought a.missing ≡ true
        → d.lt nought b.missing ≡ false
        → d.lt b.missing nought ≡ false
        → d.lt c.missing nought ≡ true
        → d.lt b.usage a.usage ≡ true
        → d.lt c.usage b.usage ≡ true
        → (schd_priority a c ≡ true) × (schd_priority c b ≡ true) × (schd_priority b a ≡ true)
    unfolding schd_priority
    schd_priority_cycle a b c ha hb hb' hc hab hbc = ground (
      arith,
      laws.lt_trans nought c.missing nought,
      laws.lt_trans c.missing nought c.missing,
      laws.lt_irrefl nought,
      laws.lt_irrefl c.missing,
    )
