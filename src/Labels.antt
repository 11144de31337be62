-- ===== src/Labels.antt =====
-- The labels of pods (`_process_pod_labels` of masu/processor/ocp/ocp_report_processor.py): a text like
-- 'label_a:1|label_b:2' becomes a dictionary. Its JSON text is not modelled. A text is a list of code
-- points.
pub mod Printed
mod Tests
use masu.Prelude.{
  ℕ, zero, suc, Bool, true, false, ◌&&◌, ◌||◌, ◌≡◌, ◌↔◌, refl, Option, none, some, List, [], ◌∷◌,
  ◌++◌, any, insert, Eq, ◌==◌, nat_eq, arith, if◌then◌else◌,
}

abbrev pub Text : Type 0
Text = List ℕ

abbrev pub text_beq : Text → Text → Bool
text_beq [] [] = true
text_beq (c ∷ text) (d ∷ other) = c == d && text_beq text other
text_beq _ _ = false

pub text_beq_iff : (s t : Text) → (text_beq s t ≡ true) ↔ (s ≡ t)
text_beq_iff [] [] = (λ h. refl, λ h. refl)
text_beq_iff [] (d ∷ t) = (λ h. cc, λ h. cc)
text_beq_iff (c ∷ s) [] = (λ h. cc, λ h. cc)
text_beq_iff (c ∷ s) (d ∷ t) = ground (arith, nat_eq.beq_iff c d, text_beq_iff s t)

instance abbrev pub text_eq : Eq Text
text_eq = record { beq = text_beq; beq_iff = text_beq_iff }

abbrev pub into_first : ℕ → List Text → List Text
into_first c [] = (c ∷ []) ∷ []
into_first c (part ∷ parts) = (c ∷ part) ∷ parts

-- `text.split(sep)`
unfoldable pub split : ℕ → Text → List Text
split sep [] = [] ∷ []
split sep (c ∷ text) =
    let parts = split sep text in if c == sep then [] ∷ parts else into_first c parts

abbrev pub label_prefix : Text
label_prefix = b'l' ∷ b'a' ∷ b'b' ∷ b'e' ∷ b'l' ∷ b'_' ∷ []

abbrev pub starts_with : Text → Text → Bool
starts_with [] text = true
starts_with (c ∷ prefix) [] = false
starts_with (c ∷ prefix) (d ∷ text) = c == d && starts_with prefix text

-- `word in text`, for a word that is not empty
abbrev pub is_within : (word : Text) → Text → Bool
is_within word [] = false
is_within word (c ∷ text) = starts_with word (c ∷ text) || is_within word text

-- The rest of a replacement by nothing, which skips the characters of an occurrence.
unfoldable pub without_prefix : ℕ → Text → Text
without_prefix skipped [] = []
without_prefix (suc skipped) (c ∷ text) = without_prefix skipped text
without_prefix zero (c ∷ text) =
    let replaced = without_prefix 5 text in
    let kept = c ∷ without_prefix 0 text in
    if starts_with label_prefix (c ∷ text) then replaced else kept

-- `key.replace('label_', '')`: every occurrence.
abbrev pub replace_prefix : Text → Text
replace_prefix key = without_prefix 0 key

-- A label with exactly one colon is recorded; another raises a ValueError, which is logged.
abbrev pub add_label : List Text → List (Text × Text) → List (Text × Text)
add_label (key ∷ value ∷ []) labels = insert (replace_prefix key) value labels
add_label _ labels = labels

unfoldable pub add_labels : List Text → List (Text × Text) → List (Text × Text)
add_labels [] labels = labels
add_labels (label ∷ rest) labels = add_labels rest (add_label (split b':' label) labels)

abbrev labels_in : Text → List Text
labels_in [] = []
labels_in (c ∷ text) = split b'|' (c ∷ text)

unfoldable pub process_pod_labels : Text → List (Text × Text)
unfolding add_labels split
process_pod_labels label_string = add_labels (labels_in label_string) []
