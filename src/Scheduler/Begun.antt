-- ===== src/Scheduler/Begun.antt =====
-- The scheduler of src/scheduler.cpp from the first line of `main` on.
use mathlib.Core.List.{Permᴰ}
use mathlib.Core.Path.{subst}
use fa_st_manager.Common.{
  ℕ, ◌^◌, ◌<◌, ◌≡◌, List, [], Option, some, Name, All, true, false, Bool-cases, inl, inr,
  Option-cases,
}
use fa_st_manager.Common.Int.{ℤ, pos, negsuc, eqb_ℤ, ltb_ℤ}
use fa_st_manager.Double.{Double}
use fa_st_manager.Scheduler.Composed.{daemon_rounds-Inv}
use fa_st_manager.Scheduler.Config.{Row}
use fa_st_manager.Scheduler.Invariant.{Inv}
use fa_st_manager.Scheduler.Rounds.{Round, daemon_rounds}
use fa_st_manager.Scheduler.Settings.{
  Opt, Settings, default_settings, full_path, parse_options, started,
}
use fa_st_manager.Scheduler.Startup.{System, configured, open_port, run_main, serves, with_rows}
use fa_st_manager.Scheduler.State.{Scheduler, ValidCandidate}

module _ {ℓ} {W : Type ℓ} ⦃d : Double W⦄ where
  open_port-serves :
      (o : System W) (s : Scheduler W) (sockets : List ℤ) (code : Option ℕ) (g : Scheduler W)
      → open_port o s ≡ serves sockets code g
      → (eqb_ℤ o.socket (negsuc 0) ≡ false)
        × (ltb_ℤ o.bind (pos 0) ≡ false)
        × (eqb_ℤ o.create (pos 0) ≡ true)
        × (g ≡ s)
  unfolding open_port
  open_port-serves o s sockets code g run = elim (Bool-cases (eqb_ℤ o.socket (negsuc 0))) [
    | inl e ↦ let bad = rw e at run in cc bad
    | inr e ↦ elim (Bool-cases (ltb_ℤ o.bind (pos 0))) [
      | inl f ↦ let bad = rw (e, f) at run in cc bad
      | inr f ↦ elim (Bool-cases (eqb_ℤ o.create (pos 0))) [
        | inl h ↦ let same = rw (e, f, h) at run in (e, f, h, cc same)
        | inr h ↦ let bad = rw (e, f, h) at run in cc bad
      ]
    ]
  ]

  module _ (strtoul : Name → ℕ) (atoi : Name → ℤ) (atof : Name → W) where
    -- `main` comes to its loop only with options that do not ask for help, a configuration file that
    -- opens, a socket, a bound port and the thread of the daemon; it starts with the rows of the file.
    pub run_main-serves :
        (o : System W) (opts : List Opt) (sockets : List ℤ) (code : Option ℕ) (g : Scheduler W)
        → run_main strtoul atoi atof o opts ≡ serves sockets code g
        → (s : Settings W) × (path : Name) × (rows : List (Row W)) × (parse_options strtoul atoi
              atof opts default_settings
            ≡ some s)
          × (full_path s.limit_file_dir s.limit_file_name ≡ some path)
          × (o.rows_of path ≡ some rows)
          × (eqb_ℤ o.socket (negsuc 0) ≡ false)
          × (ltb_ℤ o.bind (pos 0) ≡ false)
          × (eqb_ℤ o.create (pos 0) ≡ true)
          × (g ≡ started s rows)
    unfolding run_main
    run_main-serves o opts sockets code g run =
        elim (Option-cases (parse_options strtoul atoi atof opts default_settings)) [
          | inl e ↦ let bad = rw e at run in cc bad
          | inr (s, e) ↦
              let run1 : configured o s (full_path s.limit_file_dir s.limit_file_name)
                  ≡ serves sockets code g =
                rw e at run in
              elim (Option-cases (full_path s.limit_file_dir s.limit_file_name)) [
                | inl f ↦ let bad = rw f at run1 in cc bad
                | inr (path, f) ↦
                    let run2 : with_rows o s (o.rows_of path) ≡ serves sockets code g =
                      rw f at run1 in
                    elim (Option-cases (o.rows_of path)) [
                      | inl h ↦ let bad = rw h at run2 in cc bad
                      | inr (rows, h) ↦
                          let (a, b, c, same) =
                            open_port-serves o (started s rows) sockets code g (rw h at run2) in
                          (s, path, rows, e, f, h, a, b, c, same)
                    ]
              ]
        ]

    module _ (sort : List (ValidCandidate W) → List (ValidCandidate W))
        (permutes : (vs : List (ValidCandidate W)) → Permᴰ vs (sort vs)) where
      -- If `main` comes to its loop, then after any rounds of the daemon's loop, whatever arrives while
      -- it waits and however its waits end, each candidate and each token has a client, and
      -- `g_sm_occupied` is the sum of the partitions of the tokens modulo 2 ^ 64. Every partition in a
      -- configuration file is a `size_t`, and the sort permutes its list.
      pub main_rounds-Inv :
          (o : System W) (opts : List Opt) (sockets : List ℤ) (code : Option ℕ) (g t : Scheduler W)
          (qs : List (Round W))
          → ((path : Name) (rows : List (Row W))
              → o.rows_of path ≡ some rows
              → All (λ (r : Row W). r.sm_partition < 2 ^ 64) rows)
          → run_main strtoul atoi atof o opts ≡ serves sockets code g
          → daemon_rounds sort qs g ≡ some t
          → Inv t []
      main_rounds-Inv o opts sockets code g t qs small run rounds =
          let (s, path, rows, _, _, read, _, _, _, same) =
            run_main-serves o opts sockets code g run in
          daemon_rounds-Inv sort permutes s rows qs (small path rows read)
            (subst (λ v. daemon_rounds sort qs v ≡ some t) same rounds)
