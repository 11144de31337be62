-- ===== src/Tables/Caches.antt =====
-- What the caches know, against what the tables hold.
use masu.Prelude.{
  ℕ, ◌≡◌, refl, ◌∙◌, Bool, Option, none, some, List, [], ◌∷◌, ◌++◌, Eq, ◌==◌, ==-refl, lookup,
  insert, lookup-insert, Bool-cases, inl, inr,
}
use masu.Tables.{
  Table, find_id, insert_on_conflict_do_nothing, Cache, or_else, known, update, update_mappings,
  get_or_create, insert_unless, cached_or,
}

module _ {K : Type 0} ⦃e : Eq K⦄ where
  pub lookup-update :
      (key : K) (dict other : List (K × ℕ))
      → lookup key (update dict other) ≡ or_else (lookup key other) (lookup key dict)
  unfolding update lookup
  lookup-update key dict [] = refl
  lookup-update key dict ((k, id) ∷ other) =
      rw (lookup-insert key k id (update dict other), lookup-update key dict other)
        (elim (Bool-cases (key == k)) [ inl same ↦ rw same | inr other_key ↦ rw other_key ])

  -- Moving the batch's ids to the ids from before changes nothing that is known.
  pub known-update_mappings :
      (cache : Cache K) (key : K) → known (update_mappings cache) key ≡ known cache key
  unfolding known update_mappings lookup
  known-update_mappings cache key = lookup-update key cache.existing cache.processed

-- A row that is added behind the others is not found in the place of one of them.
find_id-append :
    {R : Type 0} (test : R → Bool) (rows other : List (ℕ × R))
    → find_id test (rows ++ other) ≡ or_else (find_id test rows) (find_id test other)
unfolding find_id
find_id-append test [] other = refl
find_id-append test ((id, r) ∷ rows) other =
    rw (find_id-append test rows other) (elim (Bool-cases (test r)) [ inl e ↦ rw e | inr e ↦ rw e ])

pub find_id-keeps :
    {R : Type 0} (test : R → Bool) (rows other : List (ℕ × R)) (id : ℕ)
    → find_id test rows ≡ some id
    → find_id test (rows ++ other) ≡ some id
find_id-keeps test rows other id h = rw (find_id-append test rows other, h)

module _ {K R : Type 0} ⦃e : Eq K⦄ (key_of : R → K) where
  -- The row with a key, which a unique constraint makes the only one.
  abbrev pub row_id : K → Table R → Option ℕ
  row_id key t = find_id (λ r. key_of r == key) t.rows

  abbrev pub insert_row : R → Table R → ℕ × Table R
  insert_row r t = insert_on_conflict_do_nothing (λ other. key_of other == key_of r) r t

  -- Every id that is known of the key of a row stands at a row with that key.
  abbrev pub IsCoherent : Cache K → Table R → Type 0
  IsCoherent cache t =
      (r : R) (id : ℕ) → known cache (key_of r) ≡ some id → row_id (key_of r) t ≡ some id

  insert_unless-row_id :
      (r : R) (t : Table R) (found : Option ℕ)
      → row_id (key_of r) t ≡ found
      → row_id (key_of r) (insert_unless found r t).1 ≡ some (insert_unless found r t).0
  unfolding find_id
  insert_unless-row_id r t (some id) h = h
  insert_unless-row_id r t none h =
      rw (
        find_id-append (λ other. key_of other == key_of r) t.rows ((t.next_id, r) ∷ []),
        h,
        ==-refl,
      )

  insert_unless-keeps :
      (r : R) (t : Table R) (found : Option ℕ) (key : K) (id : ℕ)
      → row_id key t ≡ some id
      → row_id key (insert_unless found r t).1 ≡ some id
  insert_unless-keeps r t (some other) key id h = h
  insert_unless-keeps r t none key id h =
      find_id-keeps (λ other. key_of other == key) t.rows ((t.next_id, r) ∷ []) id h

  pub insert_row-row_id :
      (r : R) (t : Table R) → row_id (key_of r) (insert_row r t).1 ≡ some (insert_row r t).0
  unfolding insert_on_conflict_do_nothing
  insert_row-row_id r t = insert_unless-row_id r t (row_id (key_of r) t) refl

  pub insert_row-keeps :
      (r : R) (t : Table R) (key : K) (id : ℕ)
      → row_id key t ≡ some id
      → row_id key (insert_row r t).1 ≡ some id
  unfolding insert_on_conflict_do_nothing
  insert_row-keeps r t key id h = insert_unless-keeps r t (row_id (key_of r) t) key id h

  -- What a creation through the cache leaves: an id that stands at the row with the key, a coherent
  -- cache, and the rows that were there.
  pub record Created (cache : Cache K) (t : Table R) (key : K) (out : ℕ × Cache K × Table R)
      : Type 0 where
    pub found : row_id key out.2 ≡ some out.0
    pub coherent : IsCoherent out.1 out.2
    pub keeps : (k : K) (id : ℕ) → row_id k t ≡ some id → row_id k out.2 ≡ some id

  remember :
      (cache : Cache K) (t t' : Table R) (key : K) (id : ℕ)
      → IsCoherent cache t
      → ((k : K) (i : ℕ) → row_id k t ≡ some i → row_id k t' ≡ some i)
      → row_id key t' ≡ some id
      → IsCoherent (record cache { processed = insert key id cache.processed }) t'
  unfolding known
  remember cache t t' key id c keeps found r i h = elim (Bool-cases (key_of r == key)) [
    | inl same ↦
        let is_key = (e.beq_iff (key_of r) key).0 same in
        rw is_key (found ∙ (rw (lookup-insert, same) at h))
    | inr other ↦ keeps (key_of r) i (c r i (rw (lookup-insert, other) at h))
  ]

  cached_or-Created :
      (r : R) (cache : Cache K) (t : Table R) (found : Option ℕ)
      → known cache (key_of r) ≡ found
      → IsCoherent cache t
      → Created cache t (key_of r) (cached_or found (key_of r) (insert_row r) cache t)
  cached_or-Created r cache t (some id) h c = record {
    found = c r id h;
    coherent = c;
    keeps = λ k i p. p;
  }
  cached_or-Created r cache t none h c = record {
    found = insert_row-row_id r t;
    coherent =
        remember cache t (insert_row r t).1 (key_of r) (insert_row r t).0 c (insert_row-keeps r t)
          (insert_row-row_id r t);
    keeps = insert_row-keeps r t;
  }

  pub get_or_create-Created :
      (r : R) (cache : Cache K) (t : Table R)
      → IsCoherent cache t
      → Created cache t (key_of r) (get_or_create (key_of r) (insert_row r) cache t)
  unfolding get_or_create
  get_or_create-Created r cache t c = cached_or-Created r cache t (known cache (key_of r)) refl c
