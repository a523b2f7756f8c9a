-- ===== src/Comm/Answers.antt =====
-- Responses of src/comm.cpp, written by one end and read by the other.
use fa_st_manager.Comm.Buffer.{get_msg_data, join, get_le, append_fields_fits}
use fa_st_manager.Comm.Bytes.{le_bytes, length-le_bytes}
use fa_st_manager.Comm.Message.{
  Response, prepare_response, parse_response, rsp_quota, rsp_mem_limit, response_extra,
  response_fields, rsp_mem_update,
}
use fa_st_manager.Common.{
  ℕ, List, [], some, length, ◌≤◌, ◌<◌, ◌++◌, ◌≡◌, ◌^◌, append_assoc, drop, length-append,
  append-nil, refl, sym, arith, length-drop,
}

-- The values fit their fields.
abbrev pub IsWideResponse : Response → Type 0
IsWideResponse (rsp_quota quota) = quota < 2 ^ 64
IsWideResponse (rsp_mem_limit used limit) = (used < 2 ^ 64) × (limit < 2 ^ 64)
IsWideResponse (rsp_mem_update verdict) = verdict < 2 ^ 32

-- What a reader of the attached data finds.
abbrev pub Brings : Response → List ℕ → Type 0
Brings (rsp_quota quota) out = get_msg_data 8 out 4 ≡ some (quota, 12)
Brings (rsp_mem_limit used limit) out =
    (get_msg_data 8 out 4 ≡ some (used, 12)) × (get_msg_data 8 out 12 ≡ some (limit, 20))
Brings (rsp_mem_update verdict) out = get_msg_data 4 out 4 ≡ some (verdict, 8)

abbrev pub answer : ℕ → Response → List ℕ → List ℕ
answer id rsp rest = le_bytes 4 id ++ (join (response_extra rsp) ++ rest)

length-response : (id : ℕ) (rsp : Response) → length (join (response_fields id rsp)) ≤ 20
length-response id (rsp_quota quota) = simp (length-append, length-le_bytes) (omega arith)
length-response id (rsp_mem_limit used limit) = simp (length-append, length-le_bytes) (omega arith)
length-response id (rsp_mem_update verdict) = simp (length-append, length-le_bytes) (omega arith)

Brings-answer :
    (id : ℕ) (rsp : Response) (rest : List ℕ) → IsWideResponse rsp → Brings rsp (answer id rsp rest)
Brings-answer id (rsp_quota quota) rest w =
    get_le (le_bytes 4 id) 8 quota rest (simp (append_assoc, append-nil))
      (sym (length-le_bytes 4 id)) w
Brings-answer id (rsp_mem_limit used limit) rest w = (
  get_le (le_bytes 4 id) 8 used (le_bytes 8 limit ++ rest) (simp (append_assoc, append-nil))
      (sym (length-le_bytes 4 id)) w.0,
  get_le (le_bytes 4 id ++ le_bytes 8 used) 8 limit rest (simp (append_assoc, append-nil))
      (simp (length-append, length-le_bytes)) w.1,
)
Brings-answer id (rsp_mem_update verdict) rest w =
    get_le (le_bytes 4 id) 4 verdict rest (simp (append_assoc, append-nil))
      (sym (length-le_bytes 4 id)) w

-- What `prepare_response` writes into a buffer with room for 20 bytes.
pub prepare_response_lem :
    (buf : List ℕ) (id : ℕ) (rsp : Response)
    → 20 ≤ length buf
    → prepare_response buf id rsp
      ≡ some (
        answer id rsp (drop (length (join (response_fields id rsp))) buf),
        length (join (response_fields id rsp)),
      )
unfolding prepare_response
prepare_response_lem buf id rsp room =
    rw (append_fields_fits (response_fields id rsp) [] buf (omega (arith, length-response id rsp)))
      (simp append_assoc)

-- A response is written whole into a buffer with room for 20 bytes, and the other end reads back the
-- id and the attached values. The id is an `int32_t` and the values fit their fields.
pub response_round_trip :
    (buf : List ℕ) (id : ℕ) (rsp : Response)
    → 20 ≤ length buf
    → id < 2 ^ 32
    → IsWideResponse rsp
    → (out : List ℕ) × (len : ℕ) × (prepare_response buf id rsp ≡ some (out, len))
      × (length out ≡ length buf)
      × (parse_response out ≡ some (id, 4))
      × Brings rsp out
unfolding parse_response
response_round_trip buf id rsp room small wide =
    let fields = join (response_fields id rsp) in
    let rest = drop (length fields) buf in
    (
      answer id rsp rest,
      length fields,
      prepare_response_lem buf id rsp room,
      omega (
        arith,
        length-append (le_bytes 4 id) (join (response_extra rsp) ++ rest),
        length-append (join (response_extra rsp)) rest,
        length-append (le_bytes 4 id) (join (response_extra rsp)),
        length-drop (length fields) buf,
        length-response id rsp,
      ),
      get_le [] 4 id (join (response_extra rsp) ++ rest) refl refl small,
      Brings-answer id rsp rest wide,
    )
