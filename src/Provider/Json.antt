-- ===== src/Provider/Json.antt =====
-- `stringify_json_data` of masu/util/common.py: every leaf of a JSON value becomes a text.
use masu.Prelude.{String, ◌≡◌, refl, ap}

-- The values; `other` is a number, a truth value or null, by what Python's `str` makes of it.
mutual
  pub data Json : Type 0 where
    text : String → Json
    other : (str : String) → Json
    list : JsonList → Json
    dict : JsonDict → Json

  pub data JsonList : Type 0 where
    empty_list : JsonList
    item : Json → JsonList → JsonList

  pub data JsonDict : Type 0 where
    empty_dict : JsonDict
    entry : String → Json → JsonDict → JsonDict

unfoldable mutual
  -- `stringify_json_data`, which changes lists and dictionaries in place and returns them.
  pub stringify_json_data : Json → Json
  stringify_json_data (text s) = text s
  stringify_json_data (other str) = text str
  stringify_json_data (list items) = list (stringify_items items)
  stringify_json_data (dict entries) = dict (stringify_entries entries)

  pub stringify_items : JsonList → JsonList
  stringify_items empty_list = empty_list
  stringify_items (item value items) = item (stringify_json_data value) (stringify_items items)

  pub stringify_entries : JsonDict → JsonDict
  stringify_entries empty_dict = empty_dict
  stringify_entries (entry key value entries) =
      entry key (stringify_json_data value) (stringify_entries entries)

mutual
  unfolding stringify_json_data

  -- A second pass changes nothing.
  pub stringify_json_data_idem :
      (value : Json) → stringify_json_data (stringify_json_data value) ≡ stringify_json_data value
  stringify_json_data_idem (text s) = refl
  stringify_json_data_idem (other str) = refl
  stringify_json_data_idem (list items) = ap list (stringify_items_idem items)
  stringify_json_data_idem (dict entries) = ap dict (stringify_entries_idem entries)

  stringify_items_idem :
      (items : JsonList) → stringify_items (stringify_items items) ≡ stringify_items items
  stringify_items_idem empty_list = refl
  stringify_items_idem (item value items) =
      rw (stringify_json_data_idem value, stringify_items_idem items) refl

  stringify_entries_idem :
      (entries : JsonDict)
      → stringify_entries (stringify_entries entries) ≡ stringify_entries entries
  stringify_entries_idem empty_dict = refl
  stringify_entries_idem (entry key value entries) =
      rw (stringify_json_data_idem value, stringify_entries_idem entries) refl
