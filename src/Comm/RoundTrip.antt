-- ===== src/Comm/RoundTrip.antt =====
-- What one end writes the other end reads, and when a request does not fit its buffer.
use fa_st_manager.Comm.Buffer.{
  get_msg_data, join, get_le, append_fields_overflow, append_fields_fits,
}
use fa_st_manager.Comm.Bytes.{le_bytes, length-le_bytes, span}
use fa_st_manager.Common.{
  ℕ, zero, suc, ◌+◌, ◌%◌, ◌^◌, ◌<◌, ◌≤◌, ◌≡◌, refl, List, [], ◌∷◌, ◌++◌, none, some, arith, Name,
  length, All, length-append, append_assoc, append-nil, drop, ap, sym,
}
use fa_st_manager.Comm.Message.{
  Request, req_quota, req_mem_limit, req_mem_update, c_string, parse_request, request_extra,
  request_fields, request_type, prepare_request, Host, Statics, name_of, Parsed,
}

-- The values of a request fit the widths of their fields.
abbrev pub IsWide : Request → Type 0
IsWide (req_quota overuse burst) = (overuse < 2 ^ 64) × (burst < 2 ^ 64)
IsWide req_mem_limit = Unit
IsWide (req_mem_update bytes is_allocate) = (bytes < 2 ^ 64) × (is_allocate < 2 ^ 32)

-- The reads of `handle_message` and `hook_thread_func` give the values of the request.
abbrev pub Carries : Request → List ℕ → ℕ → Type 0
Carries (req_quota overuse burst) buf at =
    (get_msg_data 8 buf at ≡ some (overuse, at + 8))
    × (get_msg_data 8 buf (at + 8) ≡ some (burst, at + 8 + 8))
Carries req_mem_limit buf at = Unit
Carries (req_mem_update bytes is_allocate) buf at =
    (get_msg_data 8 buf at ≡ some (bytes, at + 8))
    × (get_msg_data 4 buf (at + 8) ≡ some (is_allocate, at + 8 + 4))

abbrev pub NonZero : ℕ → Type 0
NonZero c = 0 < c

abbrev pub request_size : Name → Request → ℕ
request_size name req = 17 + length name + length (join (request_extra req))

length-request :
    (name : Name) (id : ℕ) (req : Request)
    → length (join (request_fields name id req)) ≡ request_size name req
length-request name id req = simp (length-append, length-le_bytes) (omega arith)

c_string_lem : (s rest : List ℕ) → All NonZero s → c_string (s ++ (0 ∷ rest)) ≡ some s
unfolding c_string
c_string_lem [] rest h = refl
c_string_lem (zero ∷ s) rest h = absurd (omega arith)
c_string_lem (suc c ∷ s) rest h = rw (c_string_lem s rest h.1)

terminated : (s rest : List ℕ) → All NonZero s → c_string (s ++ (le_bytes 1 0 ++ rest)) ≡ some s
unfolding le_bytes
terminated s rest h = c_string_lem s rest h

-- The message that the calls of `append_msg_data` leave, grouped to the right.
abbrev written : Name → ℕ → Request → List ℕ → List ℕ
written name id req rest =
    le_bytes 8 (length name)
    ++ (name
        ++ (le_bytes 1 0
            ++ (le_bytes 4 id
                ++ (le_bytes 4 (request_type req) ++ (join (request_extra req) ++ rest)))))

join-written :
    (name : Name) (id : ℕ) (req : Request) (rest : List ℕ)
    → join (request_fields name id req) ++ rest ≡ written name id req rest
join-written name id req rest = simp (append_assoc)

type_fits : (req : Request) → request_type req < span 4
type_fits (req_quota _ _) = omega arith
type_fits req_mem_limit = omega arith
type_fits (req_mem_update _ _) = omega arith

skip8 : (n : ℕ) (rest : List ℕ) → drop 8 (le_bytes 8 n ++ rest) ≡ rest
unfolding le_bytes
skip8 n rest = refl

parse_written :
    (name : Name) (id : ℕ) (req : Request) (rest : List ℕ)
    → length name < 2 ^ 64
    → id < 2 ^ 32
    → parse_request (written name id req rest)
      ≡ some (record {
        name =
            name
            ++ (le_bytes 1 0
                ++ (le_bytes 4 id
                    ++ (le_bytes 4 (request_type req) ++ (join (request_extra req) ++ rest))));
        name_len = length name;
        req_id = id;
        req_type = request_type req;
        attached = 17 + length name;
      })
unfolding parse_request
parse_written name id req rest hn hid =
    let buf = written name id req rest in
    let extra = join (request_extra req) ++ rest in
    let at = 8 + (length name + 1) in
    let len : get_msg_data 8 buf 0 ≡ some (length name, 8) =
      get_le [] 8 (length name) (drop 8 buf)
        (ap (◌++◌ (le_bytes 8 (length name))) (sym (skip8 _ _))) refl hn in
    let ident : get_msg_data 4 buf at ≡ some (id, at + 4) =
      get_le (le_bytes 8 (length name) ++ (name ++ le_bytes 1 0)) 4 id
        (le_bytes 4 (request_type req) ++ extra) (simp append_assoc)
        (simp (length-append, length-le_bytes) (omega arith)) hid in
    let type : get_msg_data 4 buf (at + 4) ≡ some (request_type req, at + 4 + 4) =
      get_le (le_bytes 8 (length name) ++ (name ++ (le_bytes 1 0 ++ le_bytes 4 id))) 4
        (request_type req) extra (simp append_assoc)
        (simp (length-append, length-le_bytes) (omega arith)) (type_fits req) in
    let end : at + 4 + 4 ≡ 17 + length name = omega arith in rw (len, ident, type, end, skip8) refl

-- What stands before the attached data.
abbrev header : Name → ℕ → ℕ → List ℕ
header name id type =
    le_bytes 8 (length name) ++ (name ++ (le_bytes 1 0 ++ (le_bytes 4 id ++ le_bytes 4 type)))

length-header : (name : Name) (id type : ℕ) → 17 + length name ≡ length (header name id type)
length-header name id type = simp (length-append, length-le_bytes) (omega arith)

Carries-written :
    (name : Name) (id : ℕ) (req : Request) (rest : List ℕ)
    → IsWide req
    → Carries req (written name id req rest) (17 + length name)
Carries-written name id (req_quota overuse burst) rest w = (
  get_le (header name id 0) 8 overuse (le_bytes 8 burst ++ rest) (simp (append_assoc, append-nil))
      (length-header name id 0) w.0,
  get_le (header name id 0 ++ le_bytes 8 overuse) 8 burst rest (simp (append_assoc, append-nil))
      (rw (length-append (header name id 0), ← length-header, length-le_bytes) refl) w.1,
)
Carries-written name id req_mem_limit rest w = tt
Carries-written name id (req_mem_update bytes is_allocate) rest w = (
  get_le (header name id 2) 8 bytes (le_bytes 4 is_allocate ++ rest)
      (simp (append_assoc, append-nil)) (length-header name id 2) w.0,
  get_le (header name id 2 ++ le_bytes 8 bytes) 4 is_allocate rest (simp (append_assoc, append-nil))
      (rw (length-append (header name id 2), ← length-header, length-le_bytes) refl) w.1,
)

-- A request that fits its buffer is written, and the other end reads back the name, the id, the type
-- and the attached values. The name holds no NUL, and the values fit their fields.
pub request_round_trip :
    (h : Host) (s : Statics) (buf : List ℕ) (req : Request)
    → All NonZero (name_of h s)
    → request_size (name_of h s) req ≤ length buf
    → length buf < 2 ^ 64
    → s.id < 2 ^ 32
    → IsWide req
    → (out : List ℕ) × (p : Parsed) × (prepare_request h s buf req
        ≡ some (s.id, out, record { client_name = some (name_of h s); id = (s.id + 1) % 2 ^ 32 }))
      × (parse_request out ≡ some p)
      × (c_string p.name ≡ some (name_of h s))
      × (p.req_id ≡ s.id)
      × (p.req_type ≡ request_type req)
      × Carries req out p.attached
unfolding prepare_request
request_round_trip h s buf req nz fits small hid wide =
    let name = name_of h s in
    let rest = drop (length (join (request_fields name s.id req))) buf in
    (
      written name s.id req rest,
      _,
      rw
          (append_fields_fits (request_fields name s.id req) [] buf
            (omega (arith, length-request name s.id req)))
          (rw join-written refl),
      parse_written name s.id req rest (omega arith) hid,
      terminated name _ nz,
      refl,
      refl,
      Carries-written name s.id req rest wide,
    )

-- A request that does not fit is written past the end of its buffer. For a buffer of `req_msg_len` and
-- a quota request these are the names of more than 47 bytes.
pub request_overflow :
    (h : Host) (s : Statics) (buf : List ℕ) (req : Request)
    → length buf < request_size (name_of h s) req
    → prepare_request h s buf req ≡ none
unfolding prepare_request
request_overflow h s buf req over = rw (
    append_fields_overflow (request_fields (name_of h s) s.id req) [] buf
      (omega (arith, length-request (name_of h s) s.id req)))
