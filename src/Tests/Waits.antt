-- ===== src/Tests/Waits.antt =====
-- The theorems about the wait for the tracking thread, at the first launches of a client.

use fa_st_manager.Common.Int.{ℤ, pos, ◌+ℤ◌, ◌-ℤ◌}
use fa_st_manager.Common.{some, refl, ◌≡◌}
use fa_st_manager.Common.{replicate, [], ◌∷◌}
use fa_st_manager.Predictor.Period.{interrupt, ms_between, predict_merged, record_stop, predictor}
use fa_st_manager.Predictor.Keeper.{get_max, drop_outdated}
use fa_st_manager.Comm.Message.{prepare_request, parse_response}
use fa_st_manager.Comm.Bytes.{le_bytes, of_le}
use fa_st_manager.Comm.Buffer.{append_fields, append_msg_data, get_msg_data}
use fa_st_manager.Double.{Thousandths, thousandths}
use fa_st_manager.Hook.State.{Peer, get_token_from_scheduler, communicate}
use fa_st_manager.Hook.Tokens.{Readings, next_burst, estimate_full_burst}
use fa_st_manager.Hook.Tracking.{
  Tracker, Tracking, away, idle, asks, tracking_created, want_token, stopped, renew, resumed, track,
  tracks, wants, renews, begun, then_step, none_yet, then_heard,
}
use fa_st_manager.Hook.Waits.{Lost, unheard_start-Lost}
use fa_st_manager.Hook.Ends.{Ended, turn, heard_wait-Ended}
use fa_st_manager.PodManager.State.{Pod}
use fa_st_manager.Tests.Hook.{hook_of_test, readings_of_test}

-- A daemon that answers with a quota of 0.
abbrev nothing_left : Peer (Pod Thousandths)
nothing_left buf s = some (replicate 40 0, s)

-- The client of the tests, with no quota yet, when the tracking thread is at `a`.
abbrev client : Tracker → Tracking Thousandths (Pod Thousandths)
client a = record (tracking_created (record hook_of_test { quota_time = pos 0 })) { tracker = a }

abbrev wanting : Tracker → Tracking Thousandths (Pod Thousandths)
wanting a = want_token readings_of_test (client a)

first_burst : (wanting idle).launcher ≡ asks (pos 0)
unfolding want_token next_burst estimate_full_burst predict_merged get_max drop_outdated record_stop
    predictor ◌+ℤ◌ ◌-ℤ◌
first_burst = refl

-- After its first exchange.
abbrev renewed_client : Tracker → Tracking Thousandths (Pod Thousandths)
renewed_client a = resumed readings_of_test (wanting a) (
  pos 0,
  record (wanting a).hook {
    statics = record { client_name = some (97 ∷ []); id = 301 };
    window_predictor = interrupt (wanting a).hook.window_predictor;
  },
)

-- The next launch.
abbrev next_readings : Readings Thousandths
next_readings = record readings_of_test { at_check = pos 9000 }

first_renewal :
    (a : Tracker)
    → renew nothing_left readings_of_test (pos 0) (wanting a) ≡ some (renewed_client a)
unfolding renew get_token_from_scheduler communicate want_token next_burst prepare_request
    append_fields append_msg_data le_bytes parse_response get_msg_data of_le
first_renewal a = refl

-- The tracking thread, which is only now at its wait, does not hear the start.
unheard_start-Lost_example :
    Lost
      (renewed_client away)
      (want_token next_readings (record (renewed_client away) { tracker = idle }))
unfolding track want_token next_burst ms_between ◌+ℤ◌ ◌-ℤ◌
unheard_start-Lost_example =
    unheard_start-Lost nothing_left readings_of_test (pos 0) (wanting away) (renewed_client away)
      refl (first_renewal away)
      (then_step (then_step begun (tracks {s = renewed_client away} (pos 0) (pos 0) (pos 0)))
        (wants next_readings refl refl))

-- The step of the tracking thread, with its readings.
abbrev no_time : Thousandths × ℤ × ℤ
no_time = (pos 0, pos 10_000, pos 11_000)

-- The tracking thread is at its wait before the first launch, and the second launch interrupts it.
abbrev waiting_client : Tracking Thousandths (Pod Thousandths)
waiting_client = want_token next_readings (renewed_client idle)

expected : Thousandths
expected = (next_burst next_readings (stopped next_readings (renewed_client idle).hook)).0

heard_wait-Ended_example :
    Ended expected (turn no_time (turn no_time (turn no_time waiting_client)))
unfolding track want_token next_burst ms_between expected ◌+ℤ◌ ◌-ℤ◌
heard_wait-Ended_example =
    heard_wait-Ended (record hook_of_test { quota_time = pos 0 }) expected no_time no_time no_time
      (then_heard
        (then_heard
          (then_heard (then_heard none_yet (tracks {s = client away} (pos 0) (pos 0) (pos 0)) refl)
            (wants {s = client idle} readings_of_test refl refl) refl)
          (renews nothing_left readings_of_test (pos 0) first_burst (first_renewal idle)) refl)
        (wants {s = renewed_client idle} next_readings refl refl) refl)
      refl
