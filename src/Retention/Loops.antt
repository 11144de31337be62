-- ===== src/Retention/Loops.antt =====
-- A loop that deletes the rows of one object after the other, against one filter.
use masu.Prelude.{
  ◌≡◌, refl, Bool, false, not, List, [], ◌∷◌, arith, select, select-eq, any, if◌then◌else◌, ◌∙◌, ap,
}

module _ {A : Type 0} where
  select-select :
      (p q : A → Bool) (rows : List A)
      → select q (select (λ r. not (p r)) rows) ≡ select (λ r. if p r then false else q r) rows
  select-select p q [] = refl
  select-select p q (r ∷ rows) = ground (arith, select-select p q rows)

module _ {A B : Type 0} where
  -- `for b in bs: query(b).delete()`
  unfoldable pub delete_each : (B → A → Bool) → List B → List A → List A
  delete_each matches [] rows = rows
  delete_each matches (b ∷ bs) rows = delete_each matches bs (select (λ r. not (matches b r)) rows)

  -- The rows that no object matches are left.
  pub delete_each-select :
      (matches : B → A → Bool) (bs : List B) (rows : List A)
      → delete_each matches bs rows ≡ select (λ r. not (any (λ b. matches b r) bs)) rows
  unfolding delete_each
  delete_each-select matches [] [] = refl
  delete_each-select matches [] (r ∷ rows) = ap (λ l. r ∷ l) (delete_each-select matches [] rows)
  delete_each-select matches (b ∷ bs) rows =
      delete_each-select matches bs (select (λ r. not (matches b r)) rows)
      ∙ select-select (matches b) (λ r. not (any (λ c. matches c r) bs)) rows
      ∙ select-eq _ _ rows (λ r. ground arith)
