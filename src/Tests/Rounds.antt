-- ===== src/Tests/Rounds.antt =====
-- A round of the scheduler with the clients of the tests: the token of `bob` is over, and `alice` waits.
use mathlib.Core.List.{Memᴰ}
use fa_st_manager.Common.{[], ◌∷◌, refl, some, Bool, true, ◌≡◌, arith}
use fa_st_manager.Common.Int.{pos, ◌-ℤ◌, ◌*ℤ◌}
use fa_st_manager.Double.{Thousandths, thousandths}
use fa_st_manager.Scheduler.Answered.{Answered, round_answers}
use fa_st_manager.Scheduler.Outbox.{KeepsSent}
use fa_st_manager.Scheduler.Rounds.{Round, daemon_round, serve_selects}
use fa_st_manager.Scheduler.State.{Scheduler}
use fa_st_manager.Tests.Passes.{permutes_same}
use fa_st_manager.Tests.Scheduler.{alice, request_of_alice, same, start, start_Inv}

abbrev pub round_of_test : Round Thousandths
round_of_test = record {
  first = [];
  before = pos 5000;
  passes = (pos 5000, []) ∷ [];
  clock = λ i. (pos 5000, pos 6000);
  after = pos 7000;
  waits = record { arrivals = []; timed_out = true } ∷ [];
}

round_answers_example :
    (u : Scheduler Thousandths) × (daemon_round same round_of_test start
      ≡ serve_selects same round_of_test (some []) u)
    × Answered request_of_alice alice u
    × ((b : Bool) (t : Scheduler Thousandths)
        → daemon_round same round_of_test start ≡ some (b, t)
        → KeepsSent u t)
unfolding ◌-ℤ◌ ◌*ℤ◌
round_answers_example =
    round_answers same permutes_same round_of_test (pos 5000, []) [] start
      (record { node = 0; candidate = request_of_alice }) alice start_Inv refl (Memᴰ.head refl) refl
      refl (omega arith)
