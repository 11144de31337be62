-- ===== src/Charge/Updater/Keys.antt =====
-- Dictionaries that are read off the rows of a table with distinct ids.
use mathlib.Core.Path.{subst}
use masu.Prelude.{
  ℕ, ◌≡◌, refl, sym, Bool, true, false, none, some, List, [], ◌∷◌, arith, map, select, All, All-map,
  All-zip, All-select, select-true, lookup, ◌==◌, nat_eq, ==-refl, Bool-cases, inl, inr,
  if◌then◌else◌,
}
use masu.Charge.Updater.{has_key, keys_within}

-- No key stands twice.
abbrev pub Distinct : {R : Type 0} → (R → ℕ) → List R → Type 0
Distinct key [] = Unit
Distinct key (r ∷ rs) = All (λ s. (key s == key r) ≡ false) rs × Distinct key rs

pub Distinct-select :
    {R : Type 0} (key : R → ℕ) (keep : R → Bool) (rs : List R)
    → Distinct key rs
    → Distinct key (select keep rs)
Distinct-select key keep [] d = tt
Distinct-select key keep (r ∷ rs) (h, d) = elim (Bool-cases (keep r)) [
  | inl e ↦ rw e (All-select _ keep rs h, Distinct-select key keep rs d)
  | inr e ↦ rw e (Distinct-select key keep rs d)
]

module _ {R V : Type 0} (key : R → ℕ) (value : R → V) where
  -- `{key(r): value(r) for r in rows}`
  abbrev pub dict : List R → List (ℕ × V)
  dict rows = map (λ r. (key r, value r)) rows

  lookup-absent :
      (r : R) (rows : List R)
      → All (λ s. (key s == key r) ≡ false) rows
      → lookup (key r) (dict rows) ≡ none
  unfolding lookup
  lookup-absent r [] h = refl
  lookup-absent r (s ∷ rows) (h, hs) = ground (arith, lookup-absent r rows hs)

  -- What a lookup by the key of `s` finds in the dictionary of `l`.
  abbrev pub Finds : (R → Bool) → List R → R → Type 0
  Finds keep l s = lookup (key s) (dict l) ≡ (if keep s then some (value s) else none)

  skip :
      (r : R) (rows : List R) (keep : R → Bool) (s : R)
      → Finds keep (select keep rows) s
      → (key s == key r) ≡ false
      → Finds keep (r ∷ select keep rows) s
  unfolding lookup
  skip r rows keep s found apart = rw apart found

  -- A lookup by the key of any row finds the row's value exactly if the row was selected.
  pub lookup-selected :
      (keep : R → Bool) (rows : List R)
      → Distinct key rows
      → All
          (λ r.
            lookup (key r) (dict (select keep rows)) ≡ (if keep r then some (value r) else none))
          rows
  unfolding lookup
  lookup-selected keep [] d = tt
  lookup-selected keep (r ∷ rows) (h, d) =
      let ih = lookup-selected keep rows d in
      let absent = lookup-absent r (select keep rows) (All-select _ keep rows h) in
      elim (Bool-cases (keep r)) [
        | inl e ↦
            let kept : select keep (r ∷ rows) ≡ r ∷ select keep rows = rw e in
            (
              rw (e, ==-refl),
              subst (λ l. All (Finds keep l) rows) (sym kept)
                  (All-zip (Finds keep (select keep rows)) (λ s. (key s == key r) ≡ false)
                    (Finds keep (r ∷ select keep rows)) rows (skip r rows keep) ih h),
            )
        | inr e ↦
            let dropped : select keep (r ∷ rows) ≡ select keep rows = rw e in
            (rw e absent, subst (λ l. All (Finds keep l) rows) (sym dropped) ih)
      ]

  pub lookup-dict :
      (rows : List R)
      → Distinct key rows
      → All (λ r. lookup (key r) (dict rows) ≡ some (value r)) rows
  lookup-dict rows d = rw (select-true rows) at (lookup-selected (λ _. true) rows d)

  has_key-dict : (rows : List R) → All (λ r. has_key (dict rows) (key r) ≡ true) rows
  has_key-dict [] = tt
  has_key-dict (r ∷ rows) = (rw ==-refl, All-map _ _ rows (λ s h. ground arith) (has_key-dict rows))

  keys_within-dict :
      (d : List (ℕ × V)) (rows : List R)
      → All (λ r. has_key d (key r) ≡ true) rows
      → keys_within (dict rows) d ≡ true
  keys_within-dict d [] h = refl
  keys_within-dict d (r ∷ rows) (h, hs) = rw (h, keys_within-dict d rows hs)

pub keys_within-same :
    {R V : Type 0} (key : R → ℕ) (value other : R → V) (rows : List R)
    → keys_within (dict key value rows) (dict key other rows) ≡ true
keys_within-same key value other rows =
    keys_within-dict key value (dict key other rows) rows (has_key-dict key other rows)
