-- ===== src/Payload/Months.antt =====
-- The month in the name of a directory.
use masu.Prelude.{
  ℕ, ◌+◌, ◌*◌, ◌/◌, ◌%◌, ◌<◌, ◌≡◌, refl, ap, false, some, List, [], ◌∷◌, ◌==◌, nat_eq, arith,
}
use masu.Labels.{split}
use masu.Tables.Clean.{Text}
use masu.Payload.Files.{
  Month, month_date_range, digit, value, day_text, next_month, billing_start, strptime,
}

digit-dash : (n : ℕ) → (digit n == b'-') ≡ false
digit-dash n = ground (arith, nat_eq.beq_iff (digit n) b'-')

-- A digit goes before the first part.
split-digit :
    (n : ℕ) (text part : Text) (parts : List Text)
    → split b'-' text ≡ part ∷ parts
    → split b'-' (digit n ∷ text) ≡ (digit n ∷ part) ∷ parts
unfolding split
split-digit n text part parts e = rw (digit-dash n, e) refl

split-dash : (text : Text) → split b'-' (b'-' ∷ text) ≡ [] ∷ split b'-' text
unfolding split
split-dash text = refl

split-day_text :
    (d : Month) (text : Text)
    → split b'-' (day_text d (b'-' ∷ text)) ≡ day_text d [] ∷ split b'-' text
split-day_text d text = split-digit _ _ _ _ (
    split-digit _ _ _ _ (
      split-digit _ _ _ _ (
        split-digit _ _ _ _ (
          split-digit _ _ _ _
            (split-digit _ _ _ _ (split-digit 0 _ _ _ (split-digit 1 _ _ _ (split-dash text))))))))

value-digit : (a b : ℕ) → value (digit a) (digit b) ≡ a % 10 * 10 + b % 10
value-digit a b = omega arith

year-digits :
    (y : ℕ)
    → y < 10000
    → value (digit (y / 100 / 10)) (digit (y / 100)) * 100 + value (digit (y / 10)) (digit y) ≡ y
year-digits y h = rw (value-digit (y / 100 / 10) (y / 100), value-digit (y / 10) y) (omega arith)

month-digits : (m : ℕ) → m < 100 → value (digit (m / 10)) (digit m) ≡ m
month-digits m h = rw (value-digit (m / 10) m) (omega arith)

strptime-day_text : (d : Month) → d.year < 10000 → d.month < 100 → strptime (day_text d []) ≡ some d
strptime-day_text d y m =
    ap some (λ i. record { year = year-digits d.year y i; month = month-digits d.month m i })

-- Of a month before the year 10000, the start that is read off the directory's name is the month.
pub billing_start-month_date_range :
    (d : Month) → d.year < 10000 → d.month < 13 → billing_start (month_date_range d) ≡ some d
unfolding billing_start month_date_range
billing_start-month_date_range d y m =
    rw (split-day_text d (day_text (next_month d) [])) (strptime-day_text d y (omega (arith, m)))
