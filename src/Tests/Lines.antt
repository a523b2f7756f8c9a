-- ===== src/Tests/Lines.antt =====
-- The lines of the log, and the full history, at concrete inputs.
use fa_st_manager.Common.{
  ℕ, ◌/◌, ◌≡◌, refl, List, [], ◌∷◌, ◌++◌, some, Name, codes, take, drop, arith,
}
use fa_st_manager.Common.Int.{pos, negsuc, ◌+ℤ◌}
use fa_st_manager.Double.{Thousandths, thousandths}
use fa_st_manager.Logging.{LogCall, log_info, log_line}
use fa_st_manager.Logging.Lines.{decimal, log_line_shows}
use fa_st_manager.Scheduler.Dumped.{steps-entries}
use fa_st_manager.Scheduler.Full.{Histories, HistoryCall, drops, records, returns, steps}
use fa_st_manager.Tests.Scheduler.{alice, alice_name, bob, bob_name}

abbrev date_of_test : ℕ → Name
date_of_test t = codes "2024-05-01 10:20:30"

abbrev print_of_test : ℕ → Name
print_of_test n = codes "722"

abbrev call_of_test : LogCall
call_of_test = record {
  time = 1_714_558_830;
  tv_nsec = 7_045_999;
  file = codes "scheduler.cpp";
  line = 722;
  message = codes "Waiting for incoming connection";
}

line_of_test :
    log_line date_of_test print_of_test log_info call_of_test
    ≡ some (
        codes "2024-05-01 10:20:30.007045 INFO:scheduler.cpp:722 Waiting for incoming connection"
        ++ (10 ∷ []))
unfolding log_line
line_of_test = refl

log_line_shows_example :
    (line : Name) × (log_line date_of_test print_of_test log_info call_of_test ≡ some line)
    × (take 19 line ≡ codes "2024-05-01 10:20:30")
    × (decimal 0 (take 6 (drop 20 line)) ≡ 7_045_999 / 1000)
log_line_shows_example =
    log_line_shows date_of_test print_of_test log_info call_of_test refl (omega arith)

abbrev empty_of_test : Histories Thousandths
empty_of_test = record { history_list = []; full_history = [] }

abbrev calls_of_test : List (HistoryCall Thousandths)
calls_of_test =
    records (pos 1000) (pos 300) alice
    ∷ returns (pos 1200) (negsuc 49) alice
    ∷ records (pos 1200) (pos 250) bob
    ∷ drops (pos 1400)
    ∷ []

-- The client gives back its token early, and the end is not after the return.
steps-entries_example :
    (steps calls_of_test empty_of_test).full_history
    ≡ record { name = alice_name; start = pos 1000; end = pos 1200 }
      ∷ record { name = bob_name; start = pos 1200; end = pos 1450 }
      ∷ []
unfolding ◌+ℤ◌
steps-entries_example = steps-entries calls_of_test empty_of_test
