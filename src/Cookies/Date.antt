-- ===== src/Cookies/Date.antt =====
-- `parseCookieDate` of app/src/cookies.ts, and `Date.UTC` for the years that it lets through.
pub mod Windows
use zeolite.Prelude.{
  ℕ, zero, suc, ◌+◌, ◌-◌, ◌*◌, ◌/◌, ◌%◌, Bool, true, false, not, ◌&&◌, ◌||◌, Option, none, some,
  List, [], ◌∷◌, ◌++◌, if◌then◌else◌, eqb, ltb, leb, is_some, or_else, all, take, text_eq, ◌==◌,
  filter,
}
use zeolite.Prelude.Int.{ℤ, pos, negsuc, sub_ℕ}
use zeolite.Text.{Text, txt, to_lower, starts_with, is_digit}

-- The delimiters 0x9, 0x20-0x2F, 0x3B-0x40, 0x5B-0x60 and 0x7B-0x7E.
abbrev pub is_delimiter : ℕ → Bool
is_delimiter c =
    eqb c 9
    || (leb 0x20 c && leb c 0x2F
        || (leb 0x3B c && leb c 0x40 || (leb 0x5B c && leb c 0x60 || leb 0x7B c && leb c 0x7E)))

-- The non-empty pieces between delimiters.
pub tokens_from : Text → Text → List Text
tokens_from [] [] = []
tokens_from (x ∷ cur) [] = (x ∷ cur) ∷ []
tokens_from [] (c ∷ s) =
    let skipped = tokens_from [] s in
    let begun = tokens_from (c ∷ []) s in if is_delimiter c then skipped else begun
tokens_from (x ∷ cur) (c ∷ s) =
    let cut = (x ∷ cur) ∷ tokens_from [] s in
    let grown = tokens_from (x ∷ (cur ++ c ∷ [])) s in if is_delimiter c then cut else grown

abbrev digit : ℕ → ℕ
digit c = c - 48

abbrev starts_digit : Text → Bool
starts_digit [] = false
starts_digit (c ∷ s) = is_digit c

-- `\d{1,2}`, greedy: the number and what follows.
pub one_or_two : Text → Option (ℕ × Text)
one_or_two [] = none
one_or_two (a ∷ []) = if is_digit a then some (digit a, []) else none
one_or_two (a ∷ b ∷ s) =
    if is_digit a
    then (if is_digit b then some (digit a * 10 + digit b, s) else some (digit a, b ∷ s))
    else none

abbrev after_colon : Text → Option Text
after_colon [] = none
after_colon (c ∷ s) = if eqb c b':' then some s else none

-- `(?::(\d{1,2}))?`
pub optional_second : Text → ℕ
unfolding one_or_two
optional_second s = elim (after_colon s) [
  | none ↦ 0
  | some r ↦ elim (one_or_two r) [ none ↦ 0 | some (n, r) ↦ n ]
]

-- `/^(\d{1,2}):(\d{1,2})(?::(\d{1,2}))?/`
pub time_of : Text → Option (ℕ × ℕ × ℕ)
unfolding one_or_two optional_second
time_of tok = elim (one_or_two tok) [
  | none ↦ none
  | some (h, r) ↦ elim (after_colon r) [
    | none ↦ none
    | some r ↦ elim (one_or_two r) [ none ↦ none | some (m, r) ↦ some (h, m, optional_second r) ]
  ]
]

-- `/^(\d{1,2})(?!\d)/`
pub day_of : Text → Option ℕ
unfolding one_or_two
day_of tok = elim (one_or_two tok) [
  | none ↦ none
  | some (d, r) ↦ if starts_digit r then none else some d
]

-- The run of digits at the head.
pub digit_run : Text → Text
digit_run [] = []
digit_run (c ∷ s) = let rest = digit_run s in if is_digit c then c ∷ rest else []

-- `/^(\d{2,4})(?!\d)/`, with the two-digit years put into a century.
pub year_of_run : Text → Option ℕ
year_of_run (a ∷ b ∷ []) =
    let y = digit a * 10 + digit b in some (if leb 70 y then 1900 + y else 2000 + y)
year_of_run (a ∷ b ∷ c ∷ []) = some (digit a * 100 + digit b * 10 + digit c)
year_of_run (a ∷ b ∷ c ∷ d ∷ []) = some (digit a * 1000 + digit b * 100 + digit c * 10 + digit d)
year_of_run _ = none

pub year_of : Text → Option ℕ
unfolding digit_run year_of_run
year_of tok = year_of_run (digit_run tok)

abbrev pub month_in : ℕ → Text → List Text → Option ℕ
month_in i s [] = none
month_in i s (m ∷ ms) = let rest = month_in (i + 1) s ms in if s == m then some i else rest

abbrev pub months : List Text
months =
    txt "jan"
    ∷ txt "feb"
    ∷ txt "mar"
    ∷ txt "apr"
    ∷ txt "may"
    ∷ txt "jun"
    ∷ txt "jul"
    ∷ txt "aug"
    ∷ txt "sep"
    ∷ txt "oct"
    ∷ txt "nov"
    ∷ txt "dec"
    ∷ []

-- `/^(jan|…|dec)/i`: the month, counted from 0.
pub month_of : Text → Option ℕ
month_of tok = month_in 0 (to_lower (take 3 tok)) months

-- What the loop over the tokens has found.
pub record Found : Type 0 where
  pub time : Option (ℕ × ℕ × ℕ)
  pub day : Option ℕ
  pub month : Option ℕ
  pub year : Option ℕ
  pub overflow_day : ℕ

abbrev pub nothing : Found
nothing = record { time = none; day = none; month = none; year = none; overflow_day = 0 }

-- The last two tests of the loop's body.
pub take_month_or_year : Text → Found → Found
take_month_or_year tok f =
    let y = if is_some f.year then f else record f { year = year_of tok } in
    if is_some f.month
    then y
    else elim (month_of tok) [ none ↦ y | some m ↦ record f { month = some m } ]

pub take_day : Text → Found → Found
take_day tok f =
    let on = take_month_or_year tok f in
    if is_some f.day then on else elim (day_of tok) [
      | none ↦ on
      | some d ↦
          if leb 1 d && leb d 31
          then record f { day = some d }
          else if eqb f.overflow_day 0 && (leb 60 d && leb d 99)
          then record f { overflow_day = d }
          else on
    ]

pub take_token : Text → Found → Found
take_token tok f =
    let on = take_day tok f in
    if is_some f.time
    then on
    else elim (time_of tok) [ none ↦ on | some t ↦ record f { time = some t } ]

pub scan : List Text → Found → Found
scan [] f = f
scan (tok ∷ toks) f = scan toks (take_token tok f)

-- The clamp after the loop.
pub clamp_day : Found → Found
clamp_day f =
    if not (eqb f.overflow_day 0) && not (is_some f.day)
    then (let d = f.overflow_day - 1 in
        if leb 1 d && leb d 31 then record f { day = some d } else f)
    else f

abbrev is_leap : ℕ → Bool
is_leap y = eqb (y % 4) 0 && (not (eqb (y % 100) 0) || eqb (y % 400) 0)

abbrev days_before_month : Bool → ℕ → ℕ
days_before_month leap m =
    let l = if leap then 1 else 0 in
    if eqb m 0
    then 0
    else if eqb m 1
    then 31
    else if eqb m 2
    then 59 + l
    else if eqb m 3
    then 90 + l
    else if eqb m 4
    then 120 + l
    else if eqb m 5
    then 151 + l
    else if eqb m 6
    then 181 + l
    else if eqb m 7
    then 212 + l
    else if eqb m 8
    then 243 + l
    else if eqb m 9
    then 273 + l
    else if eqb m 10
    then 304 + l
    else 334 + l

-- Days from 1 January of the year 1 to the given day; 719162 lead to 1 January 1970.
abbrev pub day_number : ℕ → ℕ → ℕ → ℕ
day_number y m d =
    let p = y - 1 in 365 * p + p / 4 - p / 100 + p / 400 + days_before_month (is_leap y) m + (d - 1)

-- `Date.UTC(y, m, d, h, mi, s)` for a year from 1 on, a month below 12 and a day from 1 on.
pub date_utc : ℕ → ℕ → ℕ → ℕ → ℕ → ℕ → ℤ
date_utc y m d h mi s =
    sub_ℕ (((day_number y m d * 24 + h) * 60 + mi) * 60 * 1000 + s * 1000) (719162 * 86400000)

pub finish : Found → Option ℤ
finish f = elim f.time [
  | none ↦ none
  | some (h, mi, s) ↦ elim f.day [
    | none ↦ none
    | some d ↦ elim f.month [
      | none ↦ none
      | some m ↦ elim f.year [
        | none ↦ none
        | some y ↦
            if ltb y 1601 || (ltb 23 h || (ltb 59 mi || ltb 59 s))
            then none
            else some (date_utc y m d h mi s)
      ]
    ]
  ]
]

unfoldable pub parse_cookie_date : Text → Option ℤ
unfolding tokens_from scan take_token time_of take_day day_of take_month_or_year month_of year_of
    clamp_day finish date_utc
parse_cookie_date s = finish (clamp_day (scan (tokens_from [] s) nothing))
