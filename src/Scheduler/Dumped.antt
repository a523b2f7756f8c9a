-- ===== src/Scheduler/Dumped.antt =====
-- What `dump_history` of src/scheduler.cpp writes, against a description of each entry by what comes after
-- its token.

use fa_st_manager.Common.{
  ◌≡◌, refl, sym, ap, ◌∙◌, Bool, true, false, List, [], ◌∷◌, ◌++◌, Name, none, some, append-nil,
  append_assoc, name_eq, name_eq_iff, text_eq, Bool-cases, inl, inr, arith, ◌||◌, if◌then◌else◌,
}
use fa_st_manager.Double.{Double, fmin}
use fa_st_manager.Scheduler.Client.{ClientInfo, History, record_history, update_latest}
use fa_st_manager.Scheduler.Full.{
  Histories, HistoryCall, records, returns, drops, update_full, step, steps,
}

module _ {ℓ} {W : Type ℓ} where
  abbrev pub has : Name → List (History W) → Bool
  has name [] = false
  has name (h ∷ hs) = name_eq h.name name || has name hs

  has-append :
      (name : Name) (hs : List (History W)) (new : History W)
      → has name (hs ++ (new ∷ [])) ≡ (has name hs || name_eq new.name name)
  has-append name [] new = ground arith
  has-append name (h ∷ hs) new = ground (arith, has-append name hs new)

module _ {ℓ} {W : Type ℓ} ⦃d : Double W⦄ where
  -- What the token of an entry has at the end of the calls: each return of its client corrects its end, at
  -- most to the present, until the client gets its next token.
  abbrev pub evolve : History W → List (HistoryCall W) → History W
  evolve h [] = h
  evolve h (records now quota c ∷ calls) =
      let rest = evolve h calls in if name_eq c.name h.name then h else rest
  evolve h (returns now overuse c ∷ calls) =
      let corrected = evolve (record h { end = fmin now (d.plus h.end overuse) }) calls in
      let rest = evolve h calls in if name_eq h.name c.name then corrected else rest
  evolve h (drops window_start ∷ calls) = evolve h calls

  -- One entry for each token that the calls give out.
  abbrev pub entries : List (HistoryCall W) → List (History W)
  entries [] = []
  entries (records now quota c ∷ calls) =
      evolve (record { name = c.name; start = now; end = d.plus now quota }) calls ∷ entries calls
  entries (returns now overuse c ∷ calls) = entries calls
  entries (drops window_start ∷ calls) = entries calls

  -- The entries from before the calls: the latest of each client may still change.
  abbrev pub settle : List (History W) → List (HistoryCall W) → List (History W)
  settle [] calls = []
  settle (h ∷ hs) calls = (if has h.name hs then h else evolve h calls) ∷ settle hs calls

  settle-none : (hs : List (History W)) → settle hs [] ≡ hs
  settle-none [] = refl
  settle-none (h ∷ hs) = ground (arith, settle-none hs)

  settle-drops :
      (start : W) (hs : List (History W)) (calls : List (HistoryCall W))
      → settle hs (drops start ∷ calls) ≡ settle hs calls
  settle-drops start [] calls = refl
  settle-drops start (h ∷ hs) calls = rw (settle-drops start hs calls) refl

  settle-records :
      (now quota : W) (c : ClientInfo W) (hs : List (History W)) (calls : List (HistoryCall W))
      → let new : History W = record { name = c.name; start = now; end = d.plus now quota } in
        settle (hs ++ (new ∷ [])) calls
        ≡ settle hs (records now quota c ∷ calls) ++ (evolve new calls ∷ [])
  settle-records now quota c [] calls = refl
  settle-records now quota c (h ∷ hs) calls =
      let new : History W = record { name = c.name; start = now; end = d.plus now quota } in
      ground (arith, settle-records now quota c hs calls, has-append h.name hs new)

  latest-none :
      (name : Name) (f : History W → History W) (hs : List (History W))
      → has name hs ≡ false
      → update_latest name f hs ≡ none
  unfolding update_latest
  latest-none name f [] h = refl
  latest-none name f (x ∷ hs) h = ground (arith, latest-none name f hs)

  latest-some :
      (name : Name) (f : History W → History W) (hs : List (History W))
      → has name hs ≡ true
      → (r : List (History W) × History W) × (update_latest name f hs ≡ some r)
  unfolding update_latest
  latest-some name f [] h = absurd (ground (arith, h))
  latest-some name f (x ∷ hs) h = elim (Bool-cases (has name hs)) [
    | inl e ↦ let (r, run) = latest-some name f hs e in ((x ∷ r.0, r.1), rw run refl)
    | inr e ↦
        let same : name_eq x.name name ≡ true = ground arith in
        ((f x ∷ hs, f x), rw (latest-none name f hs e, same) refl)
  ]

  update_full-none :
      (now overuse : W) (name : Name) (hs : List (History W))
      → has name hs ≡ false
      → update_full now overuse name hs ≡ hs
  unfolding update_full
  update_full-none now overuse name hs h =
      rw
        (
          latest-none name (λ x. record x { end = fmin now (d.plus x.end overuse) }) hs h,
          update_full,
        )
        refl

  -- The latest entry of the name is in the rest, and the rest is updated.
  update_full-rest :
      (now overuse : W) (name : Name) (x : History W) (hs : List (History W))
      → has name hs ≡ true
      → update_full now overuse name (x ∷ hs) ≡ x ∷ update_full now overuse name hs
  unfolding update_full update_latest
  update_full-rest now overuse name x hs h =
      let (r, run) =
        latest-some name (λ x. record x { end = fmin now (d.plus x.end overuse) }) hs h in
      rw (run, update_full, update_latest) refl

  update_full-here :
      (now overuse : W) (name : Name) (x : History W) (hs : List (History W))
      → has name hs ≡ false
      → name_eq x.name name ≡ true
      → update_full now overuse name (x ∷ hs)
        ≡ record x { end = fmin now (d.plus x.end overuse) } ∷ hs
  unfolding update_full update_latest
  update_full-here now overuse name x hs h same =
      rw
        (
          latest-none name (λ x. record x { end = fmin now (d.plus x.end overuse) }) hs h,
          same,
          update_full,
          update_latest,
        )
        refl

  has-update_full :
      (now overuse : W) (name other : Name) (hs : List (History W))
      → has other (update_full now overuse name hs) ≡ has other hs
  has-update_full now overuse name other [] =
      ap (has other) (update_full-none now overuse name [] refl)
  has-update_full now overuse name other (x ∷ hs) = elim (Bool-cases (has name hs)) [
    | inl e ↦
        rw (update_full-rest now overuse name x hs e, has-update_full now overuse name other hs)
          refl
    | inr e ↦ elim (Bool-cases (name_eq x.name name)) [
      | inl same ↦ rw (update_full-here now overuse name x hs e same) refl
      | inr not_same ↦ ap (has other) (update_full-none now overuse name (x ∷ hs) (rw not_same e))
    ]
  ]

  has-same : (a b : Name) (hs : List (History W)) → name_eq a b ≡ true → has a hs ≡ has b hs
  has-same a b hs e = ap (λ n. has n hs) ((name_eq_iff a b).0 e)

  settle-returns :
      (now overuse : W) (c : ClientInfo W) (hs : List (History W)) (calls : List (HistoryCall W))
      → settle (update_full now overuse c.name hs) calls ≡ settle hs (returns now overuse c ∷ calls)
  settle-returns now overuse c [] calls =
      ap (λ hs. settle hs calls) (update_full-none now overuse c.name [] refl)
  settle-returns now overuse c (x ∷ hs) calls =
      let rest = settle-returns now overuse c hs calls in
      let kept = has-update_full now overuse c.name x.name hs in
      elim (Bool-cases (has c.name hs)) [
        | inl e ↦ elim (Bool-cases (name_eq x.name c.name)) [
          | inl same ↦
              let again : has x.name hs ≡ true = has-same x.name c.name hs same ∙ e in
              rw (update_full-rest now overuse c.name x hs e, kept, again, rest) refl
          | inr other ↦ rw (update_full-rest now overuse c.name x hs e, kept, other, rest) refl
        ]
        | inr e ↦
            let rest' : settle hs calls ≡ settle hs (returns now overuse c ∷ calls) =
              sym (ap (λ l. settle l calls) (update_full-none now overuse c.name hs e)) ∙ rest in
            elim (Bool-cases (name_eq x.name c.name)) [
              | inl same ↦
                  let last : has x.name hs ≡ false = has-same x.name c.name hs same ∙ e in
                  rw (update_full-here now overuse c.name x hs e same, last, same, rest') refl
              | inr other ↦
                  let quiet = update_full-none now overuse c.name (x ∷ hs) (rw other e) in
                  rw (quiet, other, rest') refl
            ]
      ]

  -- After any calls, the full history is its entries from before, of which the latest of each client may
  -- have changed, and then one entry for each token that was given out, in their order: the client and
  -- the start of the token, and as its end that of the quota, corrected by each return of the client
  -- before its next token and at most the present of that return.
  pub steps-entries :
      (calls : List (HistoryCall W)) (h : Histories W)
      → (steps calls h).full_history ≡ settle h.full_history calls ++ entries calls
  unfolding steps step record_history
  steps-entries [] h = sym (append-nil (settle h.full_history []) ∙ settle-none h.full_history)
  steps-entries (records now quota c ∷ calls) h =
      let new : History W = record { name = c.name; start = now; end = d.plus now quota } in
      steps-entries calls (step (records now quota c) h)
      ∙ ap (λ l. l ++ entries calls) (settle-records now quota c h.full_history calls)
      ∙ append_assoc (settle h.full_history (records now quota c ∷ calls)) (evolve new calls ∷ [])
          (entries calls)
  steps-entries (returns now overuse c ∷ calls) h =
      steps-entries calls (step (returns now overuse c) h)
      ∙ ap (λ l. l ++ entries calls) (settle-returns now overuse c h.full_history calls)
  steps-entries (drops window_start ∷ calls) h =
      steps-entries calls (step (drops window_start) h)
      ∙ ap (λ l. l ++ entries calls) (sym (settle-drops window_start h.full_history calls))
