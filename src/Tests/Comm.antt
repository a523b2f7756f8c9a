-- ===== src/Tests/Comm.antt =====
-- The theorems about the messages, at requests of a Pod named `a`.
use fa_st_manager.Comm.Answers.{Brings, response_round_trip}
use fa_st_manager.Comm.RoundTrip.{request_overflow, Carries, request_round_trip}
use fa_st_manager.Common.Int.{negsuc, pos}
use fa_st_manager.Comm.Message.{
  Host, Statics, prepare_response, Parsed, prepare_request, req_mem_update, rsp_mem_limit,
  req_quota, parse_request, c_string, parse_response,
}
use fa_st_manager.Comm.Bytes.{le_bytes}
use fa_st_manager.Comm.Attempt.{Outcome, multiple_attempt, is_zero, multiple_attempt_first}
use fa_st_manager.Common.{
  ℕ, List, [], ◌∷◌, none, some, false, refl, ◌<◌, replicate, if◌then◌else◌, ◌≡◌, ◌≤◌, ◌==◌, arith,
  length, ◌*◌, ◌-◌,
}

abbrev pub host_of_test : Host
host_of_test = record { pod_name = some (97 ∷ []); host_name = [] }

abbrev pub statics_of_test : Statics
statics_of_test = record { client_name = none; id = 300 }

request_round_trip_example :
    (out : List ℕ) × (p : Parsed) × (prepare_request host_of_test statics_of_test
        (replicate 80 0)
        (req_mem_update 500 1)
      ≡ some (300, out, record { client_name = some (97 ∷ []); id = 301 }))
    × (parse_request out ≡ some p)
    × (c_string p.name ≡ some (97 ∷ []))
    × (p.req_id ≡ 300)
    × (p.req_type ≡ 2)
    × Carries (req_mem_update 500 1) out p.attached
unfolding le_bytes
request_round_trip_example =
    request_round_trip host_of_test statics_of_test (replicate 80 0) (req_mem_update 500 1)
      (omega arith, tt) (omega arith) (omega arith) (omega arith) (omega arith, omega arith)

response_round_trip_example :
    (out : List ℕ) × (len : ℕ) × (prepare_response (replicate 40 0) 300 (rsp_mem_limit 100 1000)
      ≡ some (out, len))
    × (length out ≡ 40)
    × (parse_response out ≡ some (300, 4))
    × Brings (rsp_mem_limit 100 1000) out
response_round_trip_example =
    response_round_trip (replicate 40 0) 300 (rsp_mem_limit 100 1000) (omega arith) (omega arith)
      (omega arith, omega arith)

request_overflow_example :
    prepare_request
      (record { pod_name = some (replicate 48 97); host_name = [] })
      statics_of_test
      (replicate 80 0)
      (req_quota 0 0)
    ≡ none
unfolding le_bytes
request_overflow_example =
    request_overflow (record { pod_name = some (replicate 48 97); host_name = [] }) statics_of_test
      (replicate 80 0) (req_quota 0 0) (omega arith)

-- The first attempt fails, the others do not.
abbrev second_works : ℕ → Outcome
second_works n = record { rc = if n == 1 then negsuc 0 else pos 0; errno = pos 111 }

abbrev all_fail : ℕ → Outcome
all_fail n = record { rc = negsuc 0; errno = pos 111 }

second_is_first : (j : ℕ) → 0 < j → j < 2 → is_zero (second_works j).rc ≡ false
second_is_first j lo hi = ground arith

multiple_attempt_first_example :
    multiple_attempt second_works 5 10
    ≡ some (record { result = pos 0; calls = 2; slept = 10 * (2 - 1) })
multiple_attempt_first_example =
    multiple_attempt_first second_works 5 10 2 (omega arith) (omega arith) refl second_is_first

never_zero : (j : ℕ) → 0 < j → j ≤ 5 → is_zero (all_fail j).rc ≡ false
never_zero j lo hi = refl
