-- ===== src/AwsReport/Entries.antt =====
-- `_process_tags`, `_create_cost_entry_line_item` and `create_cost_entry_objects`.
use masu.Prelude.{
  ℕ, String, Option, none, some, List, [], ◌∷◌, ◌++◌, nat_eq, string_eq, option_eq, pair_eq,
  list_eq, insert, if◌then◌else◌,
}
use masu.Prelude.Options.{and_then, ◌>>=◌}
use masu.Labels.{split, is_within}
use masu.Tables.Clean.{Text, scalar_eq}
use masu.AwsReport.Row.{CsvRow, get_data_for_table}
use Prim.Native.Char.{code}
use masu.AwsReport.State.{line_item, LineItem, Processor, Setup, cleaned}
use masu.AwsReport.Bills.{create_bill, create_cost_entry}
use masu.AwsReport.Objects.{create_product, create_pricing, create_reservation}

abbrev pub text_codes : String → Text
text_codes String.[] = []
text_codes (String.◌∷◌ c text) = code c ∷ text_codes text

-- `'resourceTags' in key`
abbrev resource_tags : Text
resource_tags = text_codes "resourceTags"

abbrev add_tag : List Text → Text → List (Text × Text) → List (Text × Text)
add_tag [] value tags = tags
add_tag (part ∷ []) value tags = insert part value tags
add_tag (part ∷ next ∷ parts) value tags = add_tag (next ∷ parts) value tags

-- Only a key with a colon has a tag, named by its last part.
abbrev tag_of : List Text → Text → List (Text × Text) → List (Text × Text)
tag_of [] value tags = tags
tag_of (part ∷ []) value tags = tags
tag_of (part ∷ next ∷ parts) value tags = add_tag (next ∷ parts) value tags

abbrev add_value : Text → Option Text → List (Text × Text) → List (Text × Text)
add_value key none tags = tags
add_value key (some []) tags = tags
add_value key (some (c ∷ value)) tags =
    if is_within resource_tags key then tag_of (split b':' key) (c ∷ value) tags else tags

abbrev add_tags : CsvRow → List (Text × Text) → List (Text × Text)
add_tags [] tags = tags
add_tags ((key, value) ∷ row) tags = add_tags row (add_value (text_codes key) value tags)

-- `_process_tags`, without the JSON text.
unfoldable pub process_tags : CsvRow → List (Text × Text)
process_tags row = add_tags row []

-- The ids of the objects that a line item names.
pub record Ids : Type 0 where
  pub cost_entry_id : ℕ
  pub bill_id : ℕ
  pub product_id : Option ℕ
  pub pricing_id : Option ℕ
  pub reservation_id : Option ℕ

-- `_create_cost_entry_line_item`
unfoldable pub create_line_item : Setup → CsvRow → Ids → Processor → Option Processor
unfolding process_tags
create_line_item setup row ids p =
    and_then (get_data_for_table (setup.column_map line_item) row) (λ out.
      let item : LineItem = record {
        columns = cleaned setup line_item out.0;
        tags = process_tags out.1;
        cost_entry_id = ids.cost_entry_id;
        cost_entry_bill_id = ids.bill_id;
        cost_entry_product_id = ids.product_id;
        cost_entry_pricing_id = ids.pricing_id;
        cost_entry_reservation_id = ids.reservation_id;
      } in
      some (record p { line_items = p.line_items ++ item ∷ [] }))

-- `create_cost_entry_objects`: every method gets the row as the one before it leaves it. The id of the
-- bill is returned.
unfoldable pub create_cost_entry_objects : Setup → CsvRow → Processor → Option (ℕ × Processor)
unfolding create_line_item
create_cost_entry_objects setup row p = do
  (bill_id, row₁, p₁) ← create_bill setup row p
  (cost_entry_id, p₂) ← create_cost_entry row₁ bill_id p₁
  (product_id, row₂, p₃) ← create_product setup row₁ p₂
  (pricing_id, row₃, p₄) ← create_pricing setup row₂ p₃
  (reservation_id, row₄, p₅) ← create_reservation setup row₃ p₄
  p₆ ←
      create_line_item setup row₄
        (record {
          cost_entry_id = cost_entry_id;
          bill_id = bill_id;
          product_id = product_id;
          pricing_id = pricing_id;
          reservation_id = reservation_id;
        })
        p₅
  some (bill_id, p₆)
