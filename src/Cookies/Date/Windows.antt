-- ===== src/Cookies/Date/Windows.antt =====
-- What a cookie date that parses has found, and dates that the grammar names.
use zeolite.Prelude.{
  Bool-cases, ℕ, suc, ◌+◌, subst, take, get_elem?, ◌==◌, ==_iff, ◌≤◌, ◌<◌, ◌≡◌, refl, ◌⊎◌, inl, inr,
  Option, none, some, List, [], ◌∷◌, In, arith, Option-cases, text_eq, list_beq,
}
use zeolite.Prelude.Int.{ℤ, pos, negsuc}
use zeolite.Text.{Text, txt, to_lower}
use zeolite.Cookies.Date.{
  Found, nothing, take_month_or_year, take_day, take_token, scan, clamp_day, date_utc, finish,
  month_in, tokens_from, parse_cookie_date, month_of, day_of, year_of, time_of,
}

abbrev DayOk : Option ℕ → Type 0
DayOk none = Unit
DayOk (some d) = (1 ≤ d) × (d ≤ 31)

abbrev MonthOk : Option ℕ → Type 0
MonthOk none = Unit
MonthOk (some m) = m < 12

-- What the loop keeps of what it has found.
record IsBounded (f : Found) : Type 0 where
  day_ok : DayOk f.day
  month_ok : MonthOk f.month
  overflow : (f.overflow_day ≡ 0) ⊎ (60 ≤ f.overflow_day)

month_of-MonthOk : (tok : Text) → MonthOk (month_of tok)
unfolding month_of
month_of-MonthOk tok = ground arith

take_month_or_year-IsBounded :
    (tok : Text) (f : Found) → IsBounded f → IsBounded (take_month_or_year tok f)
unfolding take_month_or_year
take_month_or_year-IsBounded tok f v = ground (arith, month_of-MonthOk tok)

take_day-IsBounded : (tok : Text) (f : Found) → IsBounded f → IsBounded (take_day tok f)
unfolding take_day
take_day-IsBounded tok f v = let on = take_month_or_year-IsBounded tok f v in ground arith

take_token-IsBounded : (tok : Text) (f : Found) → IsBounded f → IsBounded (take_token tok f)
unfolding take_token
take_token-IsBounded tok f v = let on = take_day-IsBounded tok f v in ground arith

scan-IsBounded : (toks : List Text) (f : Found) → IsBounded f → IsBounded (scan toks f)
unfolding scan
scan-IsBounded [] f v = v
scan-IsBounded (tok ∷ toks) f v =
    scan-IsBounded toks (take_token tok f) (take_token-IsBounded tok f v)

-- The clamp after the loop never changes anything: an overflow day is at least 60, and one less is
-- still no day of a month.
clamp_day-same : (f : Found) → IsBounded f → clamp_day f ≡ f
unfolding clamp_day
clamp_day-same f v = ground (arith, v.overflow)

-- A year, a month from 0, a day, an hour, a minute and a second that a cookie date can name.
pub record InRange (y m d h mi s : ℕ) : Type 0 where
  pub year_ok : 1601 ≤ y
  pub month_ok : m < 12
  pub day_ok : (1 ≤ d) × (d ≤ 31)
  pub time_ok : (h ≤ 23) × (mi ≤ 59) × (s ≤ 59)

-- The fields that the scan of the tokens leaves.
abbrev pub scanned : Text → Found
scanned s = scan (tokens_from [] s) nothing

IsBounded-nothing : IsBounded nothing
IsBounded-nothing = record { day_ok = tt; month_ok = tt; overflow = inl refl }

-- A test of the grammar reads a value from one of the tokens.
abbrev pub Among : {A : Type 0} → List Text → (Text → Option A) → A → Type 0
Among toks read a = (tok : Text) × In tok toks × (read tok ≡ some a)

-- What has been found is read from the tokens.
pub record IsRead (toks : List Text) (f : Found) : Type 0 where
  pub time_read : (w : ℕ × ℕ × ℕ) → f.time ≡ some w → Among toks time_of w
  pub day_read : (d : ℕ) → f.day ≡ some d → Among toks day_of d
  pub month_read : (m : ℕ) → f.month ≡ some m → Among toks month_of m
  pub year_read : (y : ℕ) → f.year ≡ some y → Among toks year_of y

-- What a step leaves in a field was there before, or is read from its token.
field-Among :
    {A : Type 0} (toks : List Text) (tok : Text) (read : Text → Option A) (old : Option A)
    → In tok toks
    → ((x : A) → old ≡ some x → Among toks read x)
    → (x : A) → (old ≡ some x) ⊎ (read tok ≡ some x)
    → Among toks read x
field-Among toks tok read old i v x (inl e) = v x e
field-Among toks tok read old i v x (inr e) = (tok, i, e)

take_month_or_year-IsRead :
    (toks : List Text) (tok : Text) (f : Found)
    → In tok toks
    → IsRead toks f
    → IsRead toks (take_month_or_year tok f)
unfolding take_month_or_year
take_month_or_year-IsRead toks tok f i v = record {
  time_read = λ x e. ground (arith, i, v, v.time_read x);
  day_read = λ x e. ground (arith, i, v, v.day_read x);
  month_read = λ x e. field-Among toks tok month_of f.month i v.month_read x (ground (arith, e));
  year_read = λ x e. field-Among toks tok year_of f.year i v.year_read x (ground (arith, e));
}

take_month_or_year-day : (tok : Text) (f : Found) → (take_month_or_year tok f).day ≡ f.day
unfolding take_month_or_year
take_month_or_year-day tok f = ground arith

take_day-time : (tok : Text) (f : Found) → (take_day tok f).time ≡ f.time
unfolding take_day take_month_or_year
take_day-time tok f = ground arith

take_day-IsRead :
    (toks : List Text) (tok : Text) (f : Found)
    → In tok toks
    → IsRead toks f
    → IsRead toks (take_day tok f)
unfolding take_day
take_day-IsRead toks tok f i v =
    let on = take_month_or_year-IsRead toks tok f i v in
    record {
      time_read = λ x e. ground (arith, i, v, on.time_read x, v.time_read x);
      day_read = λ x e.
          field-Among toks tok day_of f.day i v.day_read x
            (ground (arith, e, take_month_or_year-day tok f));
      month_read = λ x e. ground (arith, i, v, on.month_read x, v.month_read x);
      year_read = λ x e. ground (arith, i, v, on.year_read x, v.year_read x);
    }

take_token-IsRead :
    (toks : List Text) (tok : Text) (f : Found)
    → In tok toks
    → IsRead toks f
    → IsRead toks (take_token tok f)
unfolding take_token
take_token-IsRead toks tok f i v =
    let on = take_day-IsRead toks tok f i v in
    record {
      time_read = λ x e.
          field-Among toks tok time_of f.time i v.time_read x
            (ground (arith, e, take_day-time tok f));
      day_read = λ x e. ground (arith, i, v, on.day_read x, v.day_read x);
      month_read = λ x e. ground (arith, i, v, on.month_read x, v.month_read x);
      year_read = λ x e. ground (arith, i, v, on.year_read x, v.year_read x);
    }

scan-IsRead :
    (all rest : List Text) (f : Found)
    → ((tok : Text) → In tok rest → In tok all)
    → IsRead all f
    → IsRead all (scan rest f)
unfolding scan
scan-IsRead all [] f sub v = v
scan-IsRead all (tok ∷ rest) f sub v =
    scan-IsRead all rest (take_token tok f) (λ t i. sub t (inr i))
      (take_token-IsRead all tok f (sub tok (inl refl)) v)

IsRead-nothing : (toks : List Text) → IsRead toks nothing
IsRead-nothing toks = record {
  time_read = λ w e. absurd (ground (arith, e));
  day_read = λ w e. absurd (ground (arith, e));
  month_read = λ w e. absurd (ground (arith, e));
  year_read = λ w e. absurd (ground (arith, e));
}

-- The names of the months, January first.
abbrev pub calendar : List Text
calendar =
    txt "jan"
    ∷ txt "feb"
    ∷ txt "mar"
    ∷ txt "apr"
    ∷ txt "may"
    ∷ txt "jun"
    ∷ txt "jul"
    ∷ txt "aug"
    ∷ txt "sep"
    ∷ txt "oct"
    ∷ txt "nov"
    ∷ txt "dec"
    ∷ []

-- The month of a token whose first three units are its name, in any case.
abbrev pub IsMonth : Text → ℕ → Type 0
IsMonth tok m = get_elem? calendar m ≡ some (to_lower (take 3 tok))

month_in-found :
    (i m : ℕ) (s : Text) (names : List Text)
    → month_in i s names ≡ some m
    → (j : ℕ) × (m ≡ i + j) × (get_elem? names j ≡ some s)
month_in-found i m s [] e = absurd (ground (arith, e))
month_in-found i m s (n ∷ names) e = elim (Bool-cases (s == n)) [
  | inl same ↦ (0, ground (arith, e, same), ground (arith, (==_iff s n).0 same))
  | inr differs ↦
      let (j, p, q) = month_in-found (i + 1) m s names (ground (arith, e, differs)) in
      (suc j, omega (arith, p), q)
]

month_of-IsMonth : (tok : Text) (m : ℕ) → month_of tok ≡ some m → IsMonth tok m
unfolding month_of
month_of-IsMonth tok m e =
    let (j, p, q) = month_in-found 0 m (to_lower (take 3 tok)) calendar e in
    let same : j ≡ m = omega (arith, p) in
    subst (λ k. get_elem? calendar k ≡ some (to_lower (take 3 tok))) same q

-- `t` is the date of fields in range, each read from one of the tokens.
pub record Names (toks : List Text) (t : ℤ) : Type 0 where
  pub y : ℕ
  pub m : ℕ
  pub d : ℕ
  pub h : ℕ
  pub mi : ℕ
  pub s : ℕ
  pub in_range : InRange y m d h mi s
  pub found_time : Among toks time_of (h, mi, s)
  pub found_day : Among toks day_of d
  pub found_month : (tok : Text) × In tok toks × IsMonth tok m
  pub found_year : Among toks year_of y
  pub value : t ≡ date_utc y m d h mi s

finish-Names :
    (toks : List Text) (f : Found) (t : ℤ)
    → IsRead toks f
    → IsBounded f
    → finish f ≡ some t
    → Names toks t
unfolding finish
finish-Names toks f t r v e = elim (Option-cases f.time) [
  | inl n ↦ ground arith
  | inr (w, p) ↦ elim (Option-cases f.day) [
    | inl n ↦ ground arith
    | inr (d, q) ↦ elim (Option-cases f.month) [
      | inl n ↦ ground arith
      | inr (m, o) ↦ elim (Option-cases f.year) [
        | inl n ↦ ground arith
        | inr (y, u) ↦ record {
          y = y;
          m = m;
          d = d;
          h = w.0;
          mi = w.1;
          s = w.2;
          in_range = ground arith;
          found_time = r.time_read w p;
          found_day = r.day_read d q;
          found_month = let (tok, i, e) = r.month_read m o in (tok, i, month_of-IsMonth tok m e);
          found_year = r.year_read y u;
          value = ground arith;
        }
      ]
    ]
  ]
]

-- A cookie date that parses has a token that reads as a time, one as a day, one that begins with the
-- name of a month and one that reads as a year, each in its range, and its value is the UTC date of these; the clamp after the loop plays
-- no part.
pub parse_cookie_date-Names :
    (s : Text) (t : ℤ) → parse_cookie_date s ≡ some t → Names (tokens_from [] s) t
unfolding parse_cookie_date
parse_cookie_date-Names s t e =
    let v : IsBounded (scanned s) = scan-IsBounded (tokens_from [] s) nothing IsBounded-nothing in
    let r : IsRead (tokens_from [] s) (scanned s) =
      scan-IsRead (tokens_from [] s) (tokens_from [] s) nothing (λ tok i. i)
        (IsRead-nothing (tokens_from [] s)) in
    finish-Names (tokens_from [] s) (scanned s) t r v (rw (clamp_day-same (scanned s) v) at e)

-- The three spellings of RFC 2616 and the two-digit years.
known_dates :
    (parse_cookie_date (txt "Sun, 06 Nov 1994 08:49:37 GMT") ≡ some (pos 784111777000))
    × (parse_cookie_date (txt "Sunday, 06-Nov-94 08:49:37 GMT") ≡ some (pos 784111777000))
    × (parse_cookie_date (txt "Sun Nov  6 08:49:37 1994") ≡ some (pos 784111777000))
    × (parse_cookie_date (txt "01 Jan 1970 00:00:00") ≡ some (pos 0))
    × (parse_cookie_date (txt "31 Dec 1969 23:59:59") ≡ some (negsuc 999))
unfolding parse_cookie_date list_beq to_lower
known_dates = (refl, refl, refl, refl, refl)
