-- ===== src/Scheduler/Settings.antt =====
-- How `main` of src/scheduler.cpp starts: the options, the path of the configuration file, and the
-- globals that the threads share.
use fa_st_manager.Common.{
  ℕ, ◌-◌, ◌%◌, ◌^◌, List, [], ◌∷◌, ◌++◌, Option, none, some, Name, ◌==◌, ltb, length, take,
  if◌then◌else◌, ◌>>=◌, codes, Bool,
}
use fa_st_manager.Common.Int.{ℤ, pos}
use fa_st_manager.Double.{Double}
use fa_st_manager.Scheduler.Config.{Row, read_resource_config}
use fa_st_manager.Scheduler.State.{Scheduler}

-- What `getopt_long` gives: the short form of an option, and `optarg`.
pub data Opt : Type 0 where
  opt_port opt_quota opt_min_quota opt_window opt_limit_file opt_limit_file_dir opt_verbose :
      (optarg : Name) → Opt
  opt_help opt_other : Opt

pub record Settings {ℓ} (W : Type ℓ) : Type ℓ where
  pub schd_port : ℕ
  pub quota : W
  pub min_quota : W
  pub window_size : W
  pub limit_file_name : Name
  pub limit_file_dir : Name
  pub verbosity : ℤ

-- `PATH_MAX`
abbrev pub path_max : ℕ
path_max = 4096

-- Whether the last byte is a slash; `limit_file_dir[strlen(limit_file_dir) - 1]` of an empty text lies
-- before the array.
abbrev pub ends_with_slash : Name → Option Bool
ends_with_slash [] = none
ends_with_slash (c ∷ []) = some (c == 47)
ends_with_slash (c ∷ c' ∷ cs) = ends_with_slash (c' ∷ cs)

-- `full_path`. The bound of `strncat` leaves out the NUL that ends the text, and `none` is a write
-- behind the array. A directory has fewer than `PATH_MAX` bytes.
unfoldable pub full_path : Name → Name → Option Name
full_path dir name = ends_with_slash dir >>= λ slash.
    (let start = if slash then dir else dir ++ (47 ∷ []) in
      let path = start ++ take (path_max - length start) name in
      if ltb (length path) path_max then some path else none)

module _ {ℓ} {W : Type ℓ} ⦃d : Double W⦄ where
  abbrev pub default_settings : Settings W
  default_settings = record {
    schd_port = 50051;
    quota = d.from_int (pos 250);
    min_quota = d.from_int (pos 100);
    window_size = d.from_int (pos 10000);
    limit_file_name = codes "resource-config.txt";
    limit_file_dir = codes ".";
    verbosity = pos 0;
  }

  -- The conversions of the C library.
  module _ (strtoul : Name → ℕ) (atoi : Name → ℤ) (atof : Name → W) where
    -- One option; `none` is the end of the program after the help text. A port is a `uint16_t`.
    abbrev pub apply_option : Opt → Settings W → Option (Settings W)
    apply_option (opt_port optarg) s = some (record s { schd_port = strtoul optarg % 2 ^ 16 })
    apply_option (opt_quota optarg) s = some (record s { quota = atof optarg })
    apply_option (opt_min_quota optarg) s = some (record s { min_quota = atof optarg })
    apply_option (opt_window optarg) s = some (record s { window_size = atof optarg })
    apply_option (opt_limit_file optarg) s =
        some (record s { limit_file_name = take (path_max - 1) optarg })
    apply_option (opt_limit_file_dir optarg) s =
        some (record s { limit_file_dir = take (path_max - 1) optarg })
    apply_option (opt_verbose optarg) s = some (record s { verbosity = atoi optarg })
    apply_option opt_help s = none
    apply_option opt_other s = some s

    unfoldable pub parse_options : List Opt → Settings W → Option (Settings W)
    parse_options [] s = some s
    parse_options (o ∷ os) s = apply_option o s >>= λ s'. parse_options os s'

  -- The globals after the options are read.
  abbrev pub empty_scheduler : Settings W → Scheduler W
  empty_scheduler s = record {
    quota = s.quota;
    min_quota = s.min_quota;
    window_size = s.window_size;
    history_list = [];
    client_info_map = [];
    candidates = [];
    next_node = 0;
    token_takers = [];
    g_sm_occupied = 0;
    outbox = [];
  }

  -- The globals when the daemon starts, with the rows of the configuration file.
  unfoldable pub started : Settings W → List (Row W) → Scheduler W
  unfolding read_resource_config
  started s rows = read_resource_config rows (empty_scheduler s)
