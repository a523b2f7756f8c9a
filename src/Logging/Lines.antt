-- ===== src/Logging/Lines.antt =====
-- The lines that the log functions of src/debug.cpp write.
use fa_st_manager.Common.{
  ℕ, ◌+◌, ◌*◌, ◌-◌, ◌/◌, ◌<◌, ◌≡◌, refl, [], ◌∷◌, ◌++◌, some, Name, length, take, drop, arith,
  length-append, ◌>>=◌, ap, ◌∙◌, take-append, drop-append_add, append_assoc, Option,
}
use fa_st_manager.Logging.{
  low_digits, sprint_date, LogFunction, LogCall, log_line, level, micros_text,
}

-- The number that digits spell behind another one.
abbrev pub decimal : ℕ → Name → ℕ
decimal n [] = n
decimal n (c ∷ s) = decimal (n * 10 + (c - 48)) s

six_digits : (n : ℕ) → n < 1_000_000 → decimal 0 (low_digits 6 n []) ≡ n
unfolding low_digits
six_digits n h = omega arith

length-micros_text : (n : ℕ) → length (micros_text n) ≡ 7
unfolding low_digits
length-micros_text n = refl

sprint_date_fits :
    (date : Name) (tv_nsec : ℕ)
    → length date ≡ 19
    → sprint_date 100 date tv_nsec ≡ some (date ++ micros_text tv_nsec)
unfolding sprint_date
sprint_date_fits date n h = ground (arith, length-append date (micros_text n))

take_first : (n : ℕ) (xs ys : Name) → length xs ≡ n → take n (xs ++ ys) ≡ xs
take_first n xs ys h = rw (← h) (take-append xs ys)

drop_first : (n : ℕ) (xs ys : Name) (k : ℕ) → length xs ≡ n → drop (n + k) (xs ++ ys) ≡ drop k ys
drop_first n xs ys k h = rw (← h) (drop-append_add xs ys k)

shows :
    (d rest : Name) (n : ℕ)
    → length d ≡ 19
    → n < 1_000_000_000
    → (take 19 ((d ++ micros_text n) ++ rest) ≡ d)
      × (decimal 0 (take 6 (drop 20 ((d ++ micros_text n) ++ rest))) ≡ n / 1000)
unfolding low_digits
shows d rest n h small =
    let line = (d ++ micros_text n) ++ rest in
    let same : line ≡ d ++ (micros_text n ++ rest) = append_assoc d (micros_text n) rest in
    (
      ap (take 19) same ∙ take_first 19 d (micros_text n ++ rest) h,
      ap (λ l. decimal 0 (take 6 (drop 20 l))) same
          ∙ ap (λ l. decimal 0 (take 6 l)) (drop_first 19 d (micros_text n ++ rest) 1 h)
          ∙ six_digits (n / 1000) (omega arith),
    )

module _ (date : ℕ → Name) (print : ℕ → Name) where
  -- A log function makes a line that begins with the date of its reading of `time`, 19 bytes long, and
  -- has behind the point after it the microseconds of its later reading of the clock, as six digits.
  pub log_line_shows :
      (f : LogFunction) (c : LogCall)
      → length (date c.time) ≡ 19
      → c.tv_nsec < 1_000_000_000
      → (line : Name) × (log_line date print f c ≡ some line)
        × (take 19 line ≡ date c.time)
        × (decimal 0 (take 6 (drop 20 line)) ≡ c.tv_nsec / 1000)
  unfolding log_line
  log_line_shows f c h small =
      let d = date c.time in
      let rest =
        32
        ∷ (level f
            ++ (58
                ∷ (c.file ++ (58 ∷ (print c.line ++ (32 ∷ (take 255 c.message ++ (10 ∷ [])))))))) in
      let (first, second) = shows d rest c.tv_nsec h small in
      (
        (d ++ micros_text c.tv_nsec) ++ rest,
        ap (λ (o : Option Name). o >>= λ stamp. some (stamp ++ rest))
            (sprint_date_fits d c.tv_nsec h),
        first,
        second,
      )
