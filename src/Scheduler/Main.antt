-- ===== src/Scheduler/Main.antt =====
-- The rest of `main` of src/scheduler.cpp: the loop that accepts connections, and `dump_history`, which
-- writes the history of a debug build.
use fa_st_manager.Common.{
  zero, suc, All, ℕ, ◌≡◌, ◌≢◌, refl, List, [], ◌∷◌, ◌++◌, Option, none, some, false, Name, codes,
  if◌then◌else◌, arith,
}
use fa_st_manager.Common.Int.{ℤ, pos, negsuc, eqb_ℤ, ltb_ℤ}
use fa_st_manager.Double.{Double}
use fa_st_manager.Scheduler.Client.{History}

-- `if (forClientSockfd < 0) return 1; return 0`
abbrev pub exit_code : ℤ → ℕ
exit_code fd = if ltb_ℤ fd (pos 0) then 1 else 0

-- The sockets that get a thread, and what `main` returns once the loop has ended, for what `accept` gives.
unfoldable pub accept_pods : List ℤ → List ℤ × Option ℕ
accept_pods [] = ([], none)
accept_pods (fd ∷ fds) =
    let rest = accept_pods fds in
    if eqb_ℤ fd (pos 0) then ([], some (exit_code fd)) else (fd ∷ rest.0, rest.1)

abbrev pub IsOpen : ℤ → Type 0
IsOpen fd = eqb_ℤ fd (pos 0) ≡ false

accept_pods-append :
    (fds gs : List ℤ)
    → All IsOpen fds
    → accept_pods (fds ++ gs) ≡ (fds ++ (accept_pods gs).0, (accept_pods gs).1)
unfolding accept_pods
accept_pods-append [] gs h = refl
accept_pods-append (fd ∷ fds) gs (here, rest) = rw (here, accept_pods-append fds gs rest) refl

accept_pods-ne-one : (fds : List ℤ) → (accept_pods fds).1 ≢ some 1
unfolding accept_pods
accept_pods-ne-one [] e = cc e
accept_pods-ne-one (pos zero ∷ fds) e = ground (arith, e)
accept_pods-ne-one (pos (suc n) ∷ fds) e = accept_pods-ne-one fds (ground (arith, e))
accept_pods-ne-one (negsuc n ∷ fds) e = accept_pods-ne-one fds e

-- An `accept` that fails, whatever came before and comes after, gets a thread for the socket -1 and does
-- not end the loop, and `main` never returns 1.
pub failed_accept_served :
    (fds gs : List ℤ)
    → All IsOpen fds
    → (accept_pods (fds ++ (negsuc 0 ∷ gs))
        ≡ (fds ++ (negsuc 0 ∷ (accept_pods gs).0), (accept_pods gs).1))
      × ((accept_pods (fds ++ (negsuc 0 ∷ gs))).1 ≢ some 1)
unfolding accept_pods
failed_accept_served fds gs h =
    (accept_pods-append fds (negsuc 0 ∷ gs) h, accept_pods-ne-one (fds ++ (negsuc 0 ∷ gs)))

module _ {ℓ} {W : Type ℓ} ⦃d : Double W⦄ (print : W → Name) where
  -- `print` is the conversion `%.3lf`.
  abbrev pub dump_entry : History W → Name
  dump_entry h =
      let scale = d.from_int (pos 1000) in
      (9 ∷ codes "{\"container\": \"")
      ++ (h.name
          ++ (codes "\", \"start\": "
              ++ (print (d.divided h.start scale)
                  ++ (codes ", \"end\" : " ++ (print (d.divided h.end scale) ++ codes "}")))))

  -- The loop: a comma stands behind each entry but the last.
  unfoldable pub dump_entries : List (History W) → Name
  dump_entries [] = []
  dump_entries (h ∷ []) = dump_entry h ++ (10 ∷ [])
  dump_entries (h ∷ h' ∷ hs) = dump_entry h ++ (44 ∷ 10 ∷ dump_entries (h' ∷ hs))

  unfoldable pub dump_history : List (History W) → Name
  unfolding dump_entries
  dump_history hs = (91 ∷ 10 ∷ dump_entries hs) ++ (93 ∷ 10 ∷ [])
