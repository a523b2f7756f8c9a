-- ===== src/Scheduler/Timer.antt =====
-- The ends of the waits of src/scheduler.cpp: `get_timespec_after`, and the order of `timespec`.
use fa_st_manager.Common.{
  ℕ, ◌+◌, ◌*◌, ◌/◌, ◌%◌, ◌^◌, ◌<◌, ◌≤◌, ◌≡◌, ◌∙◌, ap, Bool, true, sym, arith, if◌then◌else◌, ltb,
}
use fa_st_manager.Common.Int.{ℤ, pos, negsuc, ◌+ℤ◌, ◌≤ℤ◌, ltb_ℤ, eqb_ℤ}
use fa_st_manager.Double.{Double}
use fa_st_manager.Timer.{Timespec, Rounding, IsRounding, carried, giga}

-- `operator<`
unfoldable pub before : Timespec → Timespec → Bool
before lhs rhs =
    if eqb_ℤ lhs.tv_sec rhs.tv_sec
    then ltb_ℤ lhs.tv_nsec rhs.tv_nsec
    else ltb_ℤ lhs.tv_sec rhs.tv_sec

-- A time after the start of the clock, in its normal form.
abbrev pub time_at : ℕ → ℕ → Timespec
time_at sec nsec = record { tv_sec = pos sec; tv_nsec = pos nsec }

-- `operator<` compares normal forms as the nanoseconds that they stand for.
pub before-total :
    (s n t m : ℕ)
    → n < giga
    → m < giga
    → before (time_at s n) (time_at t m) ≡ ltb (s * giga + n) (t * giga + m)
unfolding before
before-total s n t m h k = ground arith

carried_bounds :
    (s low high : ℕ) (x : ℤ)
    → pos low ≤ℤ x
    → x ≤ℤ pos high
    → (sec : ℕ) × (nsec : ℕ) × (carried (pos s) x ≡ time_at sec nsec)
      × (nsec < giga)
      × (s * giga + low ≤ sec * giga + nsec)
      × (sec * giga + nsec ≤ s * giga + high)
unfolding carried ◌+ℤ◌
carried_bounds s low high (pos x) h k =
    (s + x / giga, x % giga, ground arith, omega arith, omega arith, omega arith)
carried_bounds s low high (negsuc x) h k = absurd (omega arith)

module _ {ℓ} {W : Type ℓ} ⦃d : Double W⦄ (r : Rounding W) where
  -- The clock reading is an argument.
  unfoldable pub get_timespec_after : W → Timespec → Timespec
  unfolding carried
  get_timespec_after ms ts =
      let sec = d.divided ms (d.from_int (pos 1000)) in
      let fraction = d.times (d.minus sec (r.floor sec)) (d.from_int (pos giga)) in
      carried (r.to_long (d.plus (d.from_int ts.tv_sec) (r.floor sec)))
        (r.to_long (d.plus (d.from_int ts.tv_nsec) fraction))

  -- The fraction of the seconds of a wait, in nanoseconds.
  abbrev pub fraction_of : W → W
  fraction_of ms =
      let sec = d.divided ms (d.from_int (pos 1000)) in
      d.times (d.minus sec (r.floor sec)) (d.from_int (pos giga))

  module _ (laws : IsRounding W r) where
    open laws use {plus_mono, plus_exact, to_long_between, to_long_exact}

    long_sum :
        (a b : ℕ)
        → a + b < 2 ^ 53
        → r.to_long (d.plus (d.from_int (pos a)) (d.from_int (pos b))) ≡ pos (a + b)
    long_sum a b h = ap r.to_long (plus_exact a b h) ∙ to_long_exact (a + b) h

    nsec_between :
        (n a b : ℕ) (x : W)
        → n + a < 2 ^ 53
        → n + b < 2 ^ 53
        → d.le (d.from_int (pos a)) x ≡ true
        → d.le x (d.from_int (pos b)) ≡ true
        → (pos (n + a) ≤ℤ r.to_long (d.plus (d.from_int (pos n)) x))
          × (r.to_long (d.plus (d.from_int (pos n)) x) ≤ℤ pos (n + b))
    nsec_between n a b x ha hb low high =
        to_long_between (n + a) (n + b) (d.plus (d.from_int (pos n)) x) ha hb
          (rw (sym (plus_exact n a ha)) (plus_mono n (d.from_int (pos a)) x low))
          (rw (sym (plus_exact n b hb)) (plus_mono n x (d.from_int (pos b)) high))

    -- The time at which a wait ends is in its normal form, and it is the clock reading and the wait: in
    -- nanoseconds it lies from the reading, the whole seconds of the wait and `a` to the reading, the whole
    -- seconds and `b`, for all numbers `a` and `b` of nanoseconds between which the fraction of the
    -- seconds lies. The reading is in its normal form, the floor of the seconds is a number, with it the
    -- seconds are below 2 ^ 53, and `a` and `b` are at most 10 ^ 9.
    pub get_timespec_after_lem :
        (ms : W) (s n f a b : ℕ)
        → n < giga
        → s + f < 2 ^ 53
        → a ≤ giga
        → b ≤ giga
        → r.floor (d.divided ms (d.from_int (pos 1000))) ≡ d.from_int (pos f)
        → d.le (d.from_int (pos a)) (fraction_of ms) ≡ true
        → d.le (fraction_of ms) (d.from_int (pos b)) ≡ true
        → (sec : ℕ) × (nsec : ℕ) × (get_timespec_after ms (time_at s n) ≡ time_at sec nsec)
          × (nsec < giga)
          × ((s + f) * giga + (n + a) ≤ sec * giga + nsec)
          × (sec * giga + nsec ≤ (s + f) * giga + (n + b))
    unfolding get_timespec_after
    get_timespec_after_lem ms s n f a b h small ha hb whole low high =
        let x = d.divided ms (d.from_int (pos 1000)) in
        let e : r.to_long (d.plus (d.from_int (pos s)) (r.floor x)) ≡ pos (s + f) =
          ap (λ y. r.to_long (d.plus (d.from_int (pos s)) y)) whole ∙ long_sum s f small in
        let (from, to) = nsec_between n a b (fraction_of ms) (omega arith) (omega arith) low high in
        rw e (
          carried_bounds (s + f) (n + a) (n + b)
            (r.to_long (d.plus (d.from_int (pos n)) (fraction_of ms))) from to)
