-- ===== src/Tables.antt =====
-- Tables that are filled through unique keys, and the caches of their ids
-- (masu/database/report_db_accessor_base.py, and the maps that both report processors keep). A row
-- stands with its primary key; `next_id` is the sequence of the keys.
pub mod Clean
pub mod Caches
use masu.Prelude.{
  ℕ, ◌+◌, Bool, true, false, Option, none, some, List, [], ◌∷◌, ◌++◌, Eq, ◌==◌, lookup, insert,
  if◌then◌else◌,
}

pub record Table (R : Type 0) : Type 0 where
  pub rows : List (ℕ × R)
  pub next_id : ℕ

module _ {R : Type 0} where
  -- `query.filter_by(...).first().id`
  unfoldable pub find_id : (R → Bool) → List (ℕ × R) → Option ℕ
  find_id test [] = none
  find_id test ((id, r) ∷ rows) = if test r then some id else find_id test rows

  abbrev pub insert_unless : Option ℕ → R → Table R → ℕ × Table R
  insert_unless (some id) r t = (id, record t { next_id = t.next_id + 1 })
  insert_unless none r t =
      (t.next_id, record { rows = t.rows ++ (t.next_id, r) ∷ []; next_id = t.next_id + 1 })

  -- `insert_on_conflict_do_nothing` with conflict columns; `same` compares a row with the new one in
  -- these. A conflict uses up a number of the sequence too, and then the row in the way is looked up.
  unfoldable pub insert_on_conflict_do_nothing : (R → Bool) → R → Table R → ℕ × Table R
  insert_on_conflict_do_nothing same r t = insert_unless (find_id same t.rows) r t

-- The ids that a processor has met: those of the current batch and those known before it.
pub record Cache (K : Type 0) : Type 0 where
  pub processed : List (K × ℕ)
  pub existing : List (K × ℕ)

abbrev pub or_else : Option ℕ → Option ℕ → Option ℕ
or_else (some id) other = some id
or_else none other = other

module _ {K : Type 0} ⦃e : Eq K⦄ where
  -- The two `in` tests: the batch first.
  unfoldable pub known : Cache K → K → Option ℕ
  known cache key = or_else (lookup key cache.processed) (lookup key cache.existing)

  -- `dict.update`, from the last entry on: a dict has a key once, and lookups do not see the order.
  unfoldable pub update : List (K × ℕ) → List (K × ℕ) → List (K × ℕ)
  update dict [] = dict
  update dict ((key, id) ∷ other) = insert key id (update dict other)

  -- `_update_mappings` and `remove_processed_rows`, for one of the maps.
  unfoldable pub update_mappings : Cache K → Cache K
  unfolding update
  update_mappings cache = record {
    processed = [];
    existing = update cache.existing cache.processed;
  }

  module _ {R : Type 0} where
    abbrev pub cached_or :
        Option ℕ → K → (Table R → ℕ × Table R) → Cache K → Table R → ℕ × Cache K × Table R
    cached_or (some id) key create cache t = (id, cache, t)
    cached_or none key create cache t =
        let (id, t') = create t in
        (id, record cache { processed = insert key id cache.processed }, t')

    -- The shape of every `_create_...` method: the caches, or else an insertion that is remembered.
    unfoldable pub get_or_create :
        K → (Table R → ℕ × Table R) → Cache K → Table R → ℕ × Cache K × Table R
    unfolding known
    get_or_create key create cache t = cached_or (known cache key) key create cache t
