-- ===== src/Comm/Message.antt =====
-- `prepare_request`, `parse_request`, `prepare_response` and `parse_response` of src/comm.cpp.
-- A double is given by the 64 bits of its representation.
use fa_st_manager.Common.{
  ℕ, zero, suc, ◌+◌, ◌%◌, ◌^◌, List, [], ◌∷◌, Option, none, some, length, drop, Name, ◌>>=◌,
}
use fa_st_manager.Comm.Bytes.{le_bytes}
use fa_st_manager.Comm.Buffer.{append_fields, get_msg_data}

abbrev pub req_msg_len : ℕ
req_msg_len = 80

abbrev pub rsp_msg_len : ℕ
rsp_msg_len = 40

-- `comm_request_t` with what the variable arguments hold for each of its values.
pub data Request : Type 0 where
  req_quota : (overuse burst : ℕ) → Request
  req_mem_limit : Request
  req_mem_update : (bytes is_allocate : ℕ) → Request

pub data Response : Type 0 where
  rsp_quota : (quota : ℕ) → Response
  rsp_mem_limit : (used total : ℕ) → Response
  rsp_mem_update : (verdict : ℕ) → Response

-- The value of the enumeration.
abbrev pub request_type : Request → ℕ
request_type (req_quota _ _) = 0
request_type req_mem_limit = 1
request_type (req_mem_update _ _) = 2

abbrev pub request_extra : Request → List (List ℕ)
request_extra (req_quota overuse burst) = le_bytes 8 overuse ∷ le_bytes 8 burst ∷ []
request_extra req_mem_limit = []
request_extra (req_mem_update bytes is_allocate) = le_bytes 8 bytes ∷ le_bytes 4 is_allocate ∷ []

abbrev pub response_extra : Response → List (List ℕ)
response_extra (rsp_quota quota) = le_bytes 8 quota ∷ []
response_extra (rsp_mem_limit used total) = le_bytes 8 used ∷ le_bytes 8 total ∷ []
response_extra (rsp_mem_update verdict) = le_bytes 4 verdict ∷ []

-- The static variables of `prepare_request`; `id` is the bit pattern of an `int32_t`.
pub record Statics : Type 0 where
  pub client_name : Option Name
  pub id : ℕ

-- `getenv("POD_NAME")`, and what `gethostname` writes.
pub record Host : Type 0 where
  pub pod_name : Option Name
  pub host_name : Name

abbrev pub name_of : Host → Statics → Name
name_of h s = elim s.client_name [
  | some n ↦ n
  | none ↦ elim h.pod_name [ some n ↦ n | none ↦ h.host_name ]
]

abbrev pub request_fields : Name → ℕ → Request → List (List ℕ)
request_fields name id req =
    le_bytes 8 (length name)
    ∷ name
    ∷ le_bytes 1 0
    ∷ le_bytes 4 id
    ∷ le_bytes 4 (request_type req)
    ∷ request_extra req

-- The id that is returned, the buffer, and the statics after the call.
unfoldable pub prepare_request : Host → Statics → List ℕ → Request → Option (ℕ × List ℕ × Statics)
unfolding append_fields
prepare_request h s buf req =
    append_fields (request_fields (name_of h s) s.id req) (buf, 0) >>= λ out.
    some (s.id, out.0, record { client_name = some (name_of h s); id = (s.id + 1) % 2 ^ 32 })

-- What `parse_request` finds: `name` is the memory that the name pointer points to, `attached` the
-- position of the attached data in the buffer.
pub record Parsed : Type 0 where
  pub name : List ℕ
  pub name_len : ℕ
  pub req_id : ℕ
  pub req_type : ℕ
  pub attached : ℕ

unfoldable pub parse_request : List ℕ → Option Parsed
parse_request buf = get_msg_data 8 buf 0 >>= λ len.
    get_msg_data 4 buf (len.1 + (len.0 + 1)) >>= λ id. get_msg_data 4 buf id.1 >>= λ ty.
    some (record {
      name = drop 8 buf;
      name_len = len.0;
      req_id = id.0;
      req_type = ty.0;
      attached = ty.1;
    })

-- The `std::string` that a `char *` gives: the bytes up to the first NUL.
unfoldable pub c_string : List ℕ → Option Name
c_string [] = none
c_string (zero ∷ rest) = some []
c_string (suc c ∷ rest) = c_string rest >>= λ s. some (suc c ∷ s)

abbrev pub response_fields : ℕ → Response → List (List ℕ)
response_fields id rsp = le_bytes 4 id ∷ response_extra rsp

-- The buffer, and the length that is returned.
unfoldable pub prepare_response : List ℕ → ℕ → Response → Option (List ℕ × ℕ)
unfolding append_fields
prepare_response buf id rsp = append_fields (response_fields id rsp) (buf, 0)

-- The id, and the position of the attached data.
unfoldable pub parse_response : List ℕ → Option (ℕ × ℕ)
parse_response buf = get_msg_data 4 buf 0
