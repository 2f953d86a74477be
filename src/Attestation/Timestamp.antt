-- ===== src/Attestation/Timestamp.antt =====
-- The test of a canonical timestamp that the validators share: `new Date(value)` is a date whose
-- toISOString() is the value. A date lies within 8.64e15 milliseconds of 1970, and a year that has
-- not four digits is written with a sign and six.
use glare9_provenance.Prelude.{
  ℕ, ◌+◌, ◌-◌, ◌*◌, ◌%◌, Bool, true, false, ◌&&◌, ◌||◌, not, [], ◌∷◌, leb, ltb, ◌==◌, if◌then◌else◌,
  take, drop, All, ◌≡◌, refl, ◌⊎◌, inl, inr, arith,
}
use glare9_provenance.Prelude.Octets.{before}
use glare9_provenance.Codec.Utf8.{Text, IsScalar, NoBom, IsPlain}
use glare9_provenance.Crypto.{codes}
use glare9_provenance.Sharding.{is_digit}

-- The text has the form of the pattern, in which `d` stands for a digit.
unfoldable pub matches : Text → Text → Bool
matches [] [] = true
matches [] (c ∷ t) = false
matches (p ∷ ps) [] = false
matches (p ∷ ps) (c ∷ t) = (if p == b'd' then is_digit c else p == c) && matches ps t

digits_value : ℕ → Text → ℕ
digits_value value [] = value
digits_value value (c ∷ t) = digits_value (value * 10 + (c - b'0')) t

-- The number in `size` digits from `start`.
unfoldable pub number_at : ℕ → ℕ → Text → ℕ
unfolding digits_value
number_at start size t = digits_value 0 (take size (drop start t))

unfoldable pub is_leap : ℕ → Bool
is_leap year = year % 4 == 0 && (not (year % 100 == 0) || year % 400 == 0)

unfoldable pub days_in_month : ℕ → ℕ → ℕ
unfolding is_leap
days_in_month year month =
    if month == 2
    then (if is_leap year then 29 else 28)
    else if month == 4 || (month == 6 || (month == 9 || month == 11))
    then 30
    else 31

-- The fields of "-MM-DDTHH:mm:ss.sssZ" are those of a date of the year.
unfoldable pub in_calendar : ℕ → Text → Bool
unfolding number_at days_in_month
in_calendar year t =
    leb 1 (number_at 1 2 t)
    && (leb (number_at 1 2 t) 12
        && (leb 1 (number_at 4 2 t)
            && (leb (number_at 4 2 t) (days_in_month year (number_at 1 2 t))
                && (ltb (number_at 7 2 t) 24
                    && (ltb (number_at 10 2 t) 60 && ltb (number_at 13 2 t) 60)))))

unfoldable pub within_years : Text → Bool
unfolding in_calendar
within_years t = in_calendar (number_at 0 4 t) (drop 4 t)

unfoldable pub after_years : Text → Bool
unfolding in_calendar
after_years t =
    let year = number_at 1 6 t in
    leb 1_0000 year
    && (in_calendar year (drop 7 t)
        && (ltb year 27_5760
            || year == 27_5760 && not (before (codes "-09-13T00:00:00.000Z") (drop 7 t))))

unfoldable pub before_years : Text → Bool
unfolding in_calendar
before_years t =
    let year = number_at 1 6 t in
    leb 1 year
    && (in_calendar year (drop 7 t)
        && (ltb year 27_1821
            || year == 27_1821 && not (before (drop 7 t) (codes "-04-20T00:00:00.000Z"))))

abbrev year_form : Text
year_form = codes "dddd-dd-ddTdd:dd:dd.dddZ"

abbrev late_form : Text
late_form = codes "+dddddd-dd-ddTdd:dd:dd.dddZ"

abbrev early_form : Text
early_form = codes "-dddddd-dd-ddTdd:dd:dd.dddZ"

-- !Number.isNaN(new Date(value).valueOf()) && new Date(value).toISOString() === value
unfoldable pub is_timestamp : Text → Bool
unfolding matches within_years after_years before_years
is_timestamp t =
    matches year_form t && within_years t
    || (matches late_form t && after_years t || matches early_form t && before_years t)

matches-IsScalar : (p t : Text) → All IsScalar p → matches p t ≡ true → All IsScalar t
unfolding matches is_digit
matches-IsScalar [] [] h e = tt
matches-IsScalar [] (c ∷ t) h e = cc
matches-IsScalar (p ∷ ps) [] h e = cc
matches-IsScalar (p ∷ ps) (c ∷ t) (h, hs) e =
    ((ground arith, ground arith), matches-IsScalar ps t hs (ground arith))

matches-NoBom : (p t : Text) → NoBom p → matches p t ≡ true → NoBom t
unfolding matches is_digit
matches-NoBom [] [] h e = tt
matches-NoBom [] (c ∷ t) h e = cc
matches-NoBom (p ∷ ps) [] h e = cc
matches-NoBom (p ∷ ps) (c ∷ t) h e = ground arith

or_cases :
    (a b c d e f : Bool)
    → (a && b || (c && d || e && f)) ≡ true
    → (a ≡ true) ⊎ ((c ≡ true) ⊎ (e ≡ true))
or_cases true b c d e f h = inl refl
or_cases false b true d e f h = inr (inl refl)
or_cases false b false d e f h = inr (inr (ground arith))

matches-IsPlain : (p t : Text) → IsPlain p → matches p t ≡ true → IsPlain t
matches-IsPlain p t (scalar, front) e = (matches-IsScalar p t scalar e, matches-NoBom p t front e)

-- A canonical timestamp is written in ASCII.
pub is_timestamp-IsPlain : (t : Text) → is_timestamp t ≡ true → IsPlain t
unfolding is_timestamp
is_timestamp-IsPlain t h =
    elim (or_cases (matches year_form t) (within_years t) (matches late_form t) (after_years t)
      (matches early_form t) (before_years t) h) [
        | inl year ↦ matches-IsPlain year_form t (search arith, refl) year
        | inr (inl late) ↦ matches-IsPlain late_form t (search arith, refl) late
        | inr (inr early) ↦ matches-IsPlain early_form t (search arith, refl) early
      ]
