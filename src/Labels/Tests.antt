-- ===== src/Labels/Tests.antt =====
-- Runs on label texts.
use Prim.Native.Char.{code}
use Prim.Native.String.{String}
use masu.Prelude.{◌≡◌, refl, List, [], ◌∷◌, insert}
use masu.Labels.{Text, text_eq, split, without_prefix, add_labels, process_pod_labels}
use masu.Labels.Printed.{has_prefix, labels_text, put_all, process_pod_labels-labels_text}

abbrev codes : String → Text
codes String.[] = []
codes (String.◌∷◌ c s) = code c ∷ codes s

abbrev entries : List (Text × Text)
entries = (codes "app", codes "web") ∷ (codes "tier", codes "1") ∷ (codes "app", codes "db") ∷ []

split_test :
    process_pod_labels (codes "label_app:web|broken|label_label_x:y")
    ≡ (codes "app", codes "web") ∷ (codes "x", codes "y") ∷ []
unfolding process_pod_labels split without_prefix add_labels insert
split_test = refl

process_pod_labels-labels_text_example :
    process_pod_labels (labels_text entries)
    ≡ (codes "app", codes "db") ∷ (codes "tier", codes "1") ∷ []
unfolding put_all insert has_prefix
process_pod_labels-labels_text_example = process_pod_labels-labels_text entries (
  (refl, refl, refl, refl, refl),
  ((refl, refl, refl, refl, refl), ((refl, refl, refl, refl, refl), tt)),
)
