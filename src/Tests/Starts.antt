-- ===== src/Tests/Starts.antt =====
-- A start of the scheduler and a waiting client, with the clients of the tests.

use fa_st_manager.Common.{
  All, Name, ◌<◌, ◌^◌, replicate, ◌++◌, length, List, [], ◌∷◌, none, some, false, refl, arith, ◌≡◌,
  codes, ℕ, true,
}
use fa_st_manager.Common.Int.{pos, negsuc, ◌-ℤ◌, ◌*ℤ◌}
use fa_st_manager.Double.{Thousandths, thousandths}
use fa_st_manager.Scheduler.Config.{Row}
use fa_st_manager.Scheduler.Invariant.{Inv}
use fa_st_manager.Scheduler.Rounds.{Round, daemon_rounds}
use mathlib.Core.Path.{subst}
use mathlib.Core.Option.{some-injective}
use fa_st_manager.Scheduler.Begun.{main_rounds-Inv}
use fa_st_manager.Scheduler.Startup.{System, run_main, serves, exits}
use fa_st_manager.Scheduler.Settings.{
  Settings, default_settings, started, parse_options, opt_port, opt_quota, opt_help, full_path,
}
use fa_st_manager.Scheduler.State.{Scheduler}
use fa_st_manager.Tests.Passes.{permutes_same}
use fa_st_manager.Tests.Scheduler.{value_of, same, alice_name}

abbrev pub row_of_test : Row Thousandths
row_of_test = record {
  client_name = alice_name;
  gpu_min_fraction = pos 300;
  gpu_max_fraction = pos 600;
  sm_partition = 70;
  gpu_memory_size = 1000;
}

abbrev pub started_of_test : Scheduler Thousandths
started_of_test = started default_settings (row_of_test ∷ [])

-- A request of `alice` for a token: the length of the name, the name, the id, the type, the overuse and
-- the burst.
abbrev request_bytes : List ℕ
request_bytes =
    (1 ∷ replicate 7 0) ++ (97 ∷ 0 ∷ 7 ∷ replicate 3 0) ++ replicate 12 0 ++ (40 ∷ replicate 7 0)

-- The request arrives while the daemon has no candidate.
abbrev first_round : Round Thousandths
first_round = record {
  first = record { sock = 5; buf = request_bytes; now = pos 1000; later = pos 1000 } ∷ [];
  before = pos 0;
  passes = [];
  clock = λ i. (pos 0, pos 0);
  after = pos 0;
  waits = [];
}

-- The token is given out, and its time runs out.
abbrev second_round : Round Thousandths
second_round = record {
  first = [];
  before = pos 5000;
  passes = (pos 5000, []) ∷ [];
  clock = λ i. (pos 5000, pos 6000);
  after = pos 7000;
  waits = record { arrivals = []; timed_out = true } ∷ [];
}

abbrev finished : Scheduler Thousandths
finished =
    value_of started_of_test (daemon_rounds same (first_round ∷ second_round ∷ []) started_of_test)

finished_run : daemon_rounds same (first_round ∷ second_round ∷ []) started_of_test ≡ some finished
unfolding daemon_rounds started fa_st_manager.Scheduler.Message.handle_message
    fa_st_manager.Comm.Message.parse_request fa_st_manager.Comm.Buffer.get_msg_data
    fa_st_manager.Comm.Bytes.of_le fa_st_manager.Comm.Message.c_string ◌-ℤ◌ ◌*ℤ◌
    fa_st_manager.Comm.Message.prepare_response fa_st_manager.Comm.Buffer.append_msg_data
    fa_st_manager.Comm.Bytes.le_bytes fa_st_manager.Common.Int.◌+ℤ◌
finished_run = refl

-- A response was sent, and nothing is occupied any more.
finished_state :
    (length finished.outbox ≡ 1) × (finished.g_sm_occupied ≡ 0) × (length finished.candidates ≡ 0)
unfolding daemon_rounds started fa_st_manager.Scheduler.Message.handle_message
    fa_st_manager.Comm.Message.parse_request fa_st_manager.Comm.Buffer.get_msg_data
    fa_st_manager.Comm.Bytes.of_le fa_st_manager.Comm.Message.c_string ◌-ℤ◌ ◌*ℤ◌
    fa_st_manager.Comm.Message.prepare_response fa_st_manager.Comm.Buffer.append_msg_data
    fa_st_manager.Comm.Bytes.le_bytes fa_st_manager.Common.Int.◌+ℤ◌
finished_state = (refl, refl, refl)

-- The file is read, the port is bound, and one Pod connects.
abbrev system_of_test : System Thousandths
system_of_test = record {
  rows_of = λ path. some (row_of_test ∷ []);
  socket = pos 3;
  bind = pos 0;
  create = pos 0;
  accepts = pos 5 ∷ [];
}

main_run :
    run_main (λ n. 50052) (λ n. pos 0) (λ n. pos 300_000) system_of_test []
    ≡ serves (pos 5 ∷ []) none started_of_test
unfolding run_main
main_run = refl

sized_rows :
    (path : Name) (rows : List (Row Thousandths))
    → system_of_test.rows_of path ≡ some rows
    → All (λ (r : Row Thousandths). r.sm_partition < 2 ^ 64) rows
sized_rows path rows e =
    subst (λ rs. All (λ (r : Row Thousandths). r.sm_partition < 2 ^ 64) rs) (some-injective _ _ e)
      (omega arith, tt)

main_rounds-Inv_example : Inv finished []
main_rounds-Inv_example =
    main_rounds-Inv (λ n. 50052) (λ n. pos 0) (λ n. pos 300_000) same permutes_same system_of_test
      [] (pos 5 ∷ []) none started_of_test finished (first_round ∷ second_round ∷ []) sized_rows
      main_run finished_run

-- A port that is taken ends the program.
port_taken :
    run_main
      (λ n. 50052)
      (λ n. pos 0)
      (λ n. pos 300_000)
      (record system_of_test { bind = negsuc 0 })
      []
    ≡ exits 255
unfolding run_main
port_taken = refl

abbrev settings_of_test : Settings Thousandths
settings_of_test = default_settings

-- The default configuration file is found in the working directory.
default_path :
    full_path settings_of_test.limit_file_dir settings_of_test.limit_file_name
    ≡ some (codes "./resource-config.txt")
unfolding full_path
default_path = refl

-- The help text ends the program, whatever comes before it.
help_ends :
    parse_options
      (λ n. 50052)
      (λ n. pos 0)
      (λ n. pos 300_000)
      (opt_port [] ∷ opt_quota [] ∷ opt_help ∷ [])
      settings_of_test
    ≡ none
unfolding parse_options
help_ends = refl
