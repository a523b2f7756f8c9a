-- ===== src/Scheduler/Startup.antt =====
-- `main` of src/scheduler.cpp from the options to the loop that accepts connections, for what the system
-- gives.
use fa_st_manager.Common.{ℕ, ◌%◌, List, Option, none, some, Name, if◌then◌else◌, not}
use fa_st_manager.Common.Int.{ℤ, pos, negsuc, eqb_ℤ, ltb_ℤ, pos_part}
use fa_st_manager.Double.{Double}
use fa_st_manager.Scheduler.Config.{Row}
use fa_st_manager.Scheduler.Main.{accept_pods}
use fa_st_manager.Scheduler.Settings.{
  Opt, Settings, default_settings, full_path, parse_options, started,
}
use fa_st_manager.Scheduler.State.{Scheduler}

-- The rows that are read from the file of a path, if it opens, and what `socket`, `bind`,
-- `pthread_create` and each `accept` return.
pub record System {ℓ} (W : Type ℓ) : Type ℓ where
  pub rows_of : Name → Option (List (Row W))
  pub socket : ℤ
  pub bind : ℤ
  pub create : ℤ
  pub accepts : List ℤ

-- How far `main` gets: to undefined behaviour, to an exit with a status, or to the loop that accepts
-- connections, with the sockets that got a thread, what `main` returns if the loop has ended, and
-- the globals with which the threads start.
pub data Reached {ℓ} (W : Type ℓ) : Type ℓ where
  undefined : Reached W
  exits : (status : ℕ) → Reached W
  serves : (sockets : List ℤ) (code : Option ℕ) (globals : Scheduler W) → Reached W

module _ {ℓ} {W : Type ℓ} ⦃d : Double W⦄ where
  -- From `socket` on. The status of `exit(-1)` is 255, and that of an error number its lowest byte.
  unfoldable pub open_port : System W → Scheduler W → Reached W
  unfolding accept_pods
  open_port o s =
      if eqb_ℤ o.socket (negsuc 0)
      then exits 255
      else if ltb_ℤ o.bind (pos 0)
      then exits 255
      else if not (eqb_ℤ o.create (pos 0))
      then exits (pos_part o.create % 256)
      else serves (accept_pods o.accepts).0 (accept_pods o.accepts).1 s

  -- `read_resource_config`, and the rest.
  abbrev pub with_rows : System W → Settings W → Option (List (Row W)) → Reached W
  with_rows o s none = exits 1
  with_rows o s (some rows) = open_port o (started s rows)

  abbrev pub configured : System W → Settings W → Option Name → Reached W
  configured o s none = undefined
  configured o s (some path) = with_rows o s (o.rows_of path)

  abbrev pub with_settings : System W → Option (Settings W) → Reached W
  with_settings o none = exits 0
  with_settings o (some s) = configured o s (full_path s.limit_file_dir s.limit_file_name)

  unfoldable pub run_main : (Name → ℕ) → (Name → ℤ) → (Name → W) → System W → List Opt → Reached W
  unfolding parse_options full_path open_port started
  run_main strtoul atoi atof o opts =
      with_settings o (parse_options strtoul atoi atof opts default_settings)
