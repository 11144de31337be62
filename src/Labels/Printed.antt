-- ===== src/Labels/Printed.antt =====
-- Labels in the form in which the metering operator prints them.
use masu.Prelude.{
  ℕ, Bool, false, ◌||◌, ◌≡◌, refl, ap, List, [], ◌∷◌, ◌++◌, any, insert, All, ◌==◌, nat_eq, arith,
}
use masu.Labels.{
  Text, text_eq, split, label_prefix, starts_with, without_prefix, replace_prefix, add_label,
  add_labels, process_pod_labels,
}

-- A text without a character.
abbrev pub Free : ℕ → Text → Type 0
Free sep text = any (λ c. c == sep) text ≡ false

-- Whether 'label_' occurs in a text.
unfoldable pub has_prefix : Text → Bool
has_prefix [] = false
has_prefix (c ∷ text) = starts_with label_prefix (c ∷ text) || has_prefix text

abbrev pub Plain : Text × Text → Type 0
Plain (key, value) =
    (has_prefix key ≡ false) × Free b'|' key × Free b':' key × Free b'|' value × Free b':' value

-- 'label_key:value'
abbrev pub label_text : Text × Text → Text
label_text (key, value) = label_prefix ++ (key ++ b':' ∷ value)

-- The labels with a bar between them.
pub labels_text : List (Text × Text) → Text
labels_text [] = []
labels_text (entry ∷ []) = label_text entry
labels_text (entry ∷ next ∷ entries) = label_text entry ++ b'|' ∷ labels_text (next ∷ entries)

unfoldable pub put_all : List (Text × Text) → List (Text × Text) → List (Text × Text)
put_all [] labels = labels
put_all ((key, value) ∷ entries) labels = put_all entries (insert key value labels)

split-Free : (sep : ℕ) (text : Text) → Free sep text → split sep text ≡ text ∷ []
unfolding split
split-Free sep [] h = refl
split-Free sep (c ∷ text) h = ground (arith, split-Free sep text)

split-append :
    (sep : ℕ) (text rest : Text)
    → Free sep text
    → split sep (text ++ sep ∷ rest) ≡ text ∷ split sep rest
unfolding split
split-append sep [] rest h = ground arith
split-append sep (c ∷ text) rest h = ground (arith, split-append sep text rest)

without_prefix-plain : (text : Text) → has_prefix text ≡ false → without_prefix 0 text ≡ text
unfolding without_prefix has_prefix
without_prefix-plain [] h = refl
without_prefix-plain (c ∷ text) h = ground (arith, without_prefix-plain text)

replace_prefix-label :
    (key : Text) → has_prefix key ≡ false → replace_prefix (label_prefix ++ key) ≡ key
unfolding without_prefix
replace_prefix-label key h = without_prefix-plain key h

any-append :
    (sep : ℕ) (s t : Text)
    → any (λ c. c == sep) (s ++ t) ≡ (any (λ c. c == sep) s || any (λ c. c == sep) t)
any-append sep [] t = refl
any-append sep (c ∷ s) t = rw (any-append sep s t) (ground arith)

label_text-Free : (entry : Text × Text) → Plain entry → Free b'|' (label_text entry)
label_text-Free (key, value) (p, k, _, v, _) = rw (any-append b'|' key (b':' ∷ value), k) v

add_label-text :
    (key value : Text) (labels : List (Text × Text))
    → Plain (key, value)
    → add_label (split b':' (label_text (key, value))) labels ≡ insert key value labels
add_label-text key value labels (p, _, k, _, v) =
    rw (split-append b':' (label_prefix ++ key) value k, split-Free b':' value v)
      (ap (λ name. insert name value labels) (replace_prefix-label key p))

add_labels-text :
    (entry : Text × Text) (entries labels : List (Text × Text))
    → All Plain (entry ∷ entries)
    → add_labels (split b'|' (labels_text (entry ∷ entries))) labels
      ≡ put_all (entry ∷ entries) labels
unfolding add_labels labels_text put_all
add_labels-text (key, value) [] labels (h, _) =
    rw (split-Free b'|' (label_text (key, value)) (label_text-Free (key, value) h))
      (add_label-text key value labels h)
add_labels-text (key, value) (next ∷ entries) labels (h, hs) =
    rw
      (split-append b'|' (label_text (key, value)) (labels_text (next ∷ entries))
        (label_text-Free (key, value) h))
      (rw (add_labels, add_label-text key value labels h)
        (add_labels-text next entries (insert key value labels) hs))

-- Labels that are printed with the prefix 'label_', a colon before each value and a bar between them
-- are read back in their order, a later value of a key in the place of an earlier one, if no key or
-- value has a colon or a bar and no key has 'label_' in it.
pub process_pod_labels-labels_text :
    (entries : List (Text × Text))
    → All Plain entries
    → process_pod_labels (labels_text entries) ≡ put_all entries []
unfolding process_pod_labels labels_text put_all add_labels
process_pod_labels-labels_text [] h = refl
process_pod_labels-labels_text (entry ∷ []) h = add_labels-text entry [] [] h
process_pod_labels-labels_text (entry ∷ next ∷ entries) h =
    add_labels-text entry (next ∷ entries) [] h
