-- ===== src/Logging.antt =====
-- src/debug.cpp: the log functions of the daemons, which write to `stderr`, and those of the hook library,
-- which write to a file. `strftime` of the local time, `%ld` and the formatted message are parameters.
pub mod Lines
use fa_st_manager.Common.{
  ℕ, zero, suc, ◌+◌, ◌-◌, ◌/◌, ◌%◌, List, [], ◌∷◌, ◌++◌, Option, none, some, Bool, true, false,
  Name, codes, length, take, ltb, if◌then◌else◌, ◌>>=◌,
}

-- `DEBUG_MSG_LEN`
abbrev pub debug_msg_len : ℕ
debug_msg_len = 256

-- The last digits of a number, as many as are asked for, in front of a text.
unfoldable pub low_digits : ℕ → ℕ → Name → Name
low_digits zero n text = text
low_digits (suc k) n text = low_digits k (n / 10) ((48 + n % 10) ∷ text)

-- `snprintf(ms_buf, 10, ".%06ld", ts.tv_nsec / 1000)`. `tv_nsec` is below 10 ^ 9, and `ms_buf` has room
-- for nine bytes.
abbrev pub micros_text : ℕ → Name
micros_text tv_nsec = take 9 (46 ∷ low_digits 6 (tv_nsec / 1000) [])

-- The text in a buffer of `len` bytes, from what `strftime` gives and the later clock reading. `none`
-- is a date that does not fit, or an append past the end of the buffer.
unfoldable pub sprint_date : ℕ → Name → ℕ → Option Name
unfolding low_digits
sprint_date len date tv_nsec =
    let text = date ++ take 10 (micros_text tv_nsec) in
    if ltb (length date) len then (if ltb (length text) len then some text else none) else none

-- The functions that GENERATE_PRINT and GENERATE_f define.
pub data LogFunction : Type 0 where
  log_debug log_info log_warning log_error h_debug h_info h_warning h_error : LogFunction

unfoldable pub level : LogFunction → Name
level log_debug = codes "DEBU"
level log_info = codes "INFO"
level log_warning = codes "WARN"
level log_error = codes "ERRO"
level h_debug = codes "DEBU"
level h_info = codes "INFO"
level h_warning = codes "WARN"
level h_error = codes "ERRO"

-- Whether it is one of GENERATE_f.
unfoldable pub to_file : LogFunction → Bool
to_file log_debug = false
to_file log_info = false
to_file log_warning = false
to_file log_error = false
to_file h_debug = true
to_file h_info = true
to_file h_warning = true
to_file h_error = true

-- Whether a build without _DEBUG leaves the body empty.
unfoldable pub is_debug : LogFunction → Bool
is_debug log_debug = true
is_debug h_debug = true
is_debug _ = false

-- A call: the seconds of `time`, the nanoseconds of the clock reading after it, where the call stands, and
-- the formatted message.
pub record LogCall : Type 0 where
  pub time : ℕ
  pub tv_nsec : ℕ
  pub file : Name
  pub line : ℕ
  pub message : Name

-- What has been written so far.
pub record Logs : Type 0 where
  pub stderr : Name
  pub hook_log : Name

module _ (date : ℕ → Name) (print : ℕ → Name) where
  -- The line; `vsnprintf` cuts the message to its buffer.
  unfoldable pub log_line : LogFunction → LogCall → Option Name
  unfolding sprint_date level
  log_line f c = sprint_date 100 (date c.time) c.tv_nsec >>= λ stamp. some (
      stamp
      ++ (32
          ∷ (level f
              ++ (58
                  ∷ (c.file
                      ++ (58
                          ∷ (print c.line
                              ++ (32 ∷ (take (debug_msg_len - 1) c.message ++ (10 ∷ []))))))))))

  -- `opened` says whether the file can be opened.
  unfoldable pub write_log : Bool → Bool → LogFunction → LogCall → Logs → Option Logs
  unfolding log_line to_file is_debug
  write_log debug_build opened f c logs =
      let written = log_line f c >>= λ text. some (
        if to_file f
        then (if opened then record logs { hook_log = logs.hook_log ++ text } else logs)
        else record logs { stderr = logs.stderr ++ text }) in
      if debug_build then written else (if is_debug f then some logs else written)
