-- ===== src/Charge/Numeral.antt =====
-- Texts of digits: `Decimal(text)` and the order of `str`.
use masu.Prelude.{
  ℕ, ◌+◌, ◌-◌, ◌*◌, ◌/◌, ◌^◌, Bool, true, false, ◌&&◌, [], ◌∷◌, leb, ltb, ◌==◌, nat_eq, any,
  if◌then◌else◌,
}
use masu.Prelude.Int.{ℤ, pos, ◌-ℤ◌}
use masu.Charge.{Text, Result, ok, err, invalid_operation}

abbrev is_digit : ℕ → Bool
is_digit c = leb b'0' c && leb c b'9'

-- The digits behind the point, the first worth `place`. Digits below the unit are dropped.
fraction : (value place : ℕ) → Text → Result ℕ
fraction value place [] = ok value
fraction value place (c ∷ cs) =
    let rest = fraction (value + (c - b'0') * place) (place / 10) cs in
    if is_digit c then rest else err invalid_operation

whole : ℕ → Text → Result ℕ
unfolding fraction
whole value [] = ok (value * 10 ^ 9)
whole value (c ∷ cs) =
    let rest = whole (value * 10 + (c - b'0')) cs in
    if is_digit c
    then rest
    else if c == b'.'
    then fraction (value * 10 ^ 9) (10 ^ 8) cs
    else err invalid_operation

abbrev signed : (ℕ → ℤ) → Result ℕ → Result ℤ
signed f (ok n) = ok (f n)
signed f (err e) = err e

abbrev unsigned_or_negative : Text → Result ℤ
unsigned_or_negative [] = err invalid_operation
unsigned_or_negative (c ∷ cs) =
    if c == b'-' then signed (λ n. pos 0 -ℤ pos n) (whole 0 cs) else signed pos (whole 0 (c ∷ cs))

-- `Decimal(text)` for a text of digits, with a sign and a point at most.
unfoldable pub decimal : Text → Result ℤ
unfolding whole ◌-ℤ◌
decimal text = if any is_digit text then unsigned_or_negative text else err invalid_operation

-- `a <= b` on `str`: by code points, the first difference decides.
unfoldable pub text_leb : Text → Text → Bool
text_leb [] b = true
text_leb (c ∷ cs) [] = false
text_leb (c ∷ cs) (d ∷ ds) = let rest = text_leb cs ds in if c == d then rest else ltb c d
