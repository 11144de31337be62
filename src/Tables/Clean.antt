-- ===== src/Tables/Clean.antt =====
-- The cells of a row that is written to a table: `clean_data` (masu/database/report_db_accessor_base.py).
use masu.Prelude.{
  ℕ, String, Bool, true, false, ◌≡◌, ◌↔◌, Option, none, some, List, [], ◌∷◌, map, Eq, ◌==◌, nat_eq,
  string_eq, option_eq, list_eq, lookup, arith, ◌&&◌,
}
use masu.Prelude.Int.{ℤ, pos, negsuc}

abbrev pub Text : Type 0
Text = List ℕ

pub data ColumnType : Type 0 where
  text_column int_column float_column decimal_column : ColumnType

-- A cell that is not null: a text, or a number in units of 10^-9.
pub data Scalar : Type 0 where
  text : Text → Scalar
  number : ℤ → Scalar

abbrev pub int_beq : ℤ → ℤ → Bool
int_beq (pos m) (pos n) = m == n
int_beq (negsuc m) (negsuc n) = m == n
int_beq _ _ = false

abbrev pub scalar_beq : Scalar → Scalar → Bool
scalar_beq (text s) (text t) = s == t
scalar_beq (number m) (number n) = int_beq m n
scalar_beq _ _ = false

text_beq_iff : (s t : Text) → (scalar_beq (text s) (text t) ≡ true) ↔ (text s ≡ text t)
text_beq_iff s t = ground (arith, (list_eq {A = ℕ}).beq_iff s t)

pub scalar_beq_iff : (a b : Scalar) → (scalar_beq a b ≡ true) ↔ (a ≡ b)
scalar_beq_iff (text s) (text t) = text_beq_iff s t
scalar_beq_iff (text s) (number n) = (λ h. cc, λ h. cc)
scalar_beq_iff (number m) (text t) = (λ h. cc, λ h. cc)
scalar_beq_iff (number (pos m)) (number (pos n)) = ground arith
scalar_beq_iff (number (pos m)) (number (negsuc n)) = (λ h. cc, λ h. cc)
scalar_beq_iff (number (negsuc m)) (number (pos n)) = (λ h. cc, λ h. cc)
scalar_beq_iff (number (negsuc m)) (number (negsuc n)) = ground arith

instance abbrev pub scalar_eq : Eq Scalar
scalar_eq = record { beq = scalar_beq; beq_iff = scalar_beq_iff }

-- `data.get(column)`
abbrev pub get_column : String → List (String × Option Scalar) → Option Scalar
get_column column columns = elim (lookup column columns) [ none ↦ none | some value ↦ value ]

abbrev pub is_null : Option Scalar → Bool
is_null none = true
is_null (some value) = false

-- The values of a row by column; `none` is None, and null in the database.
abbrev pub Columns : Type 0
Columns = List (String × Option Scalar)

-- Two rows are in conflict on unique columns: a null is not equal to any value.
abbrev pub equal_cells : Option Scalar → Option Scalar → Bool
equal_cells none other = false
equal_cells (some a) other = some a == other

unfoldable pub same_columns : List String → Columns → Columns → Bool
same_columns [] a b = true
same_columns (column ∷ columns) a b =
    equal_cells (get_column column a) (get_column column b) && same_columns columns a b

-- Python's `int(value)` and `float(value)`, with `none` for a ValueError, and
-- `Decimal(value).quantize(...)`, with `none` for an InvalidOperation.
pub record Conversions : Type 0 where
  pub int : Text → Option Scalar
  pub float : Text → Option Scalar
  pub quantized : Text → Option Scalar

module _ (python : Conversions) where
  -- `_convert_value`
  unfoldable pub convert_value : ColumnType → Text → Option Scalar
  convert_value text_column value = some (text value)
  convert_value int_column value = python.int value
  convert_value float_column value = python.float value
  convert_value decimal_column value = python.quantized value

  abbrev clean_text : Option ColumnType → Text → Option Scalar
  clean_text none value = some (text value)
  clean_text (some text_column) value = some (text value)
  clean_text (some int_column) value = convert_value int_column value
  clean_text (some float_column) value = convert_value float_column value
  clean_text (some decimal_column) value = convert_value decimal_column value

  abbrev clean_value : Option ColumnType → Option Text → Option Scalar
  clean_value column_type none = none
  clean_value column_type (some []) = none
  clean_value column_type (some (c ∷ value)) = clean_text column_type (c ∷ value)

  -- `clean_data`
  unfoldable pub clean_data : List (String × ColumnType) → List (String × Option Text) → Columns
  unfolding convert_value
  clean_data column_types row =
      map (λ entry. (entry.0, clean_value (lookup entry.0 column_types) entry.1)) row
