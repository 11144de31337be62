-- ===== src/ReportFiles/Columns.antt =====
-- The type of an OpenShift report by the columns of its file: `_detect_report_type` of
-- masu/processor/ocp/ocp_report_processor.py, with the constructor that uses it, and the choice of
-- the processor in masu/processor/report_processor.py.
use Prim.Native.Char.{code}
use mathlib.Core.List.{Perm, foldr}
use mathlib.Core.List.Perm
use mathlib.Core.Path.{subst}
use masu.Prelude.{
  String, ◌≡◌, ◌⊎◌, ◌↔◌, refl, sym, ◌∙◌, arith, Bool, true, false, Option, none, some, List, [],
  ◌∷◌, map, ◌==◌, nat_eq, list_eq, if◌then◌else◌, Bool-cases, inl, inr,
}
use masu.Provider.{is_aws, is_ocp}
use masu.Tables.Clean.{Text}
use masu.Charge.Numeral.{text_leb}

-- The code points of a text.
abbrev pub points : String → Text
points String.[] = []
points (String.◌∷◌ c s) = code c ∷ points s

unfoldable pub insert_sorted : Text → List Text → List Text
insert_sorted x [] = x ∷ []
insert_sorted x (y ∷ ys) =
    let rest = insert_sorted x ys in if text_leb x y then x ∷ y ∷ ys else y ∷ rest

-- `sorted(texts)`
unfoldable pub sorted_texts : List Text → List Text
unfolding insert_sorted
sorted_texts [] = []
sorted_texts (x ∷ xs) = insert_sorted x (sorted_texts xs)

abbrev pub storage_columns : List Text
storage_columns = map points (
    "report_period_start" ∷ "report_period_end" ∷ "interval_start" ∷ "interval_end" ∷ "namespace"
    ∷ "pod" ∷ "persistentvolumeclaim" ∷ "persistentvolume" ∷ "storageclass"
    ∷ "persistentvolumeclaim_capacity_bytes" ∷ "persistentvolumeclaim_capacity_byte_seconds"
    ∷ "volume_request_storage_byte_seconds" ∷ "persistentvolumeclaim_usage_byte_seconds"
    ∷ "persistentvolume_labels" ∷ "persistentvolumeclaim_labels" ∷ [])

abbrev pub cpu_mem_usage_columns : List Text
cpu_mem_usage_columns = map points (
    "report_period_start" ∷ "report_period_end" ∷ "pod" ∷ "namespace" ∷ "node" ∷ "resource_id"
    ∷ "interval_start" ∷ "interval_end" ∷ "pod_usage_cpu_core_seconds"
    ∷ "pod_request_cpu_core_seconds" ∷ "pod_limit_cpu_core_seconds"
    ∷ "pod_usage_memory_byte_seconds" ∷ "pod_request_memory_byte_seconds"
    ∷ "pod_limit_memory_byte_seconds" ∷ "node_capacity_cpu_cores" ∷ "node_capacity_cpu_core_seconds"
    ∷ "node_capacity_memory_bytes" ∷ "node_capacity_memory_byte_seconds" ∷ "pod_labels" ∷ [])

pub data OcpReportType : Type 0 where
  cpu_mem_usage storage unknown : OcpReportType

-- `_detect_report_type` on the first record of the file; `next` raises a StopIteration if there is
-- none.
unfoldable pub detect_report_type : Option (List Text) → Option OcpReportType
unfolding sorted_texts
detect_report_type none = none
detect_report_type (some column_names) = some (
    if sorted_texts column_names == sorted_texts storage_columns
    then storage
    else if sorted_texts column_names == sorted_texts cpu_mem_usage_columns
    then cpu_mem_usage
    else unknown)

pub data FileProcessor : Type 0 where
  aws_processor ocp_cpu_mem_processor ocp_storage_processor : FileProcessor

pub data Chosen : Type 0 where
  processor : FileProcessor → Chosen
  processor_error : String → Chosen

-- The constructor `OCPReportProcessor(...)`, whose exceptions `ReportProcessor` turns into its own.
abbrev ocp_processor : Option OcpReportType → Chosen
ocp_processor none = processor_error ""
ocp_processor (some cpu_mem_usage) = processor ocp_cpu_mem_processor
ocp_processor (some storage) = processor ocp_storage_processor
ocp_processor (some unknown) = processor_error "Unknown OCP report type."

-- The constructor `ReportProcessor(...)`.
unfoldable pub set_processor : String → Option (List Text) → Chosen
unfolding detect_report_type
set_processor provider_type header =
    let ocp = ocp_processor (detect_report_type header) in
    if is_aws provider_type
    then processor aws_processor
    else if is_ocp provider_type
    then ocp
    else processor_error "Invalid provider type specified."

text_leb-total : (s t : Text) → (text_leb s t ≡ true) ⊎ (text_leb t s ≡ true)
unfolding text_leb
text_leb-total [] t = inl refl
text_leb-total (c ∷ s) [] = inr refl
text_leb-total (c ∷ s) (d ∷ t) =
    ground (arith, nat_eq.beq_iff c d, nat_eq.beq_iff d c, text_leb-total s t)

text_leb-antisym : (s t : Text) → text_leb s t ≡ true → text_leb t s ≡ true → s ≡ t
unfolding text_leb
text_leb-antisym [] [] h k = refl
text_leb-antisym [] (d ∷ t) h k = cc
text_leb-antisym (c ∷ s) [] h k = cc
text_leb-antisym (c ∷ s) (d ∷ t) h k =
    ground (arith, nat_eq.beq_iff c d, nat_eq.beq_iff d c, text_leb-antisym s t)

text_leb_trans : (s t u : Text) → text_leb s t ≡ true → text_leb t u ≡ true → text_leb s u ≡ true
unfolding text_leb
text_leb_trans [] t u h k = refl
text_leb_trans (c ∷ s) [] u h k = cc
text_leb_trans (c ∷ s) (d ∷ t) [] h k = cc
text_leb_trans (c ∷ s) (d ∷ t) (e ∷ u) h k =
    ground (arith, nat_eq.beq_iff c d, nat_eq.beq_iff d e, nat_eq.beq_iff c e, text_leb_trans s t u)

insert_sorted_comm :
    (x y : Text) (zs : List Text)
    → insert_sorted x (insert_sorted y zs) ≡ insert_sorted y (insert_sorted x zs)
unfolding insert_sorted
insert_sorted_comm x y [] = ground (arith, text_leb-total x y, text_leb-antisym x y)
insert_sorted_comm x y (z ∷ zs) = ground (
  arith,
  insert_sorted_comm x y zs,
  text_leb-total x y,
  text_leb-antisym x y,
  text_leb-total x z,
  text_leb-total y z,
  text_leb_trans x y z,
  text_leb_trans y x z,
  text_leb_trans z x y,
  text_leb_trans z y x,
)

sets : IsSet (List Text)
sets = hlevel

sorted_texts-foldr : (xs : List Text) → sorted_texts xs ≡ foldr insert_sorted [] xs
unfolding sorted_texts
sorted_texts-foldr [] = refl
sorted_texts-foldr (x ∷ xs) = rw (sorted_texts-foldr xs) refl

sorted_texts-Perm : {xs ys : List Text} → Perm xs ys → sorted_texts xs ≡ sorted_texts ys
sorted_texts-Perm {xs} {ys} p =
    sorted_texts-foldr xs
    ∙ Perm.foldr-eq sets insert_sorted insert_sorted_comm p []
    ∙ sym (sorted_texts-foldr ys)

insert_sorted-perm : (x : Text) (ys : List Text) → Perm (insert_sorted x ys) (x ∷ ys)
unfolding insert_sorted
insert_sorted-perm x [] = Perm.rfl
insert_sorted-perm x (y ∷ ys) = elim (Bool-cases (text_leb x y)) [
  | inl e ↦ rw e Perm.rfl
  | inr e ↦ rw e (Perm.trans (Perm.cons y (insert_sorted-perm x ys)) (Perm.swap x y ys))
]

sorted_texts-perm : (xs : List Text) → Perm (sorted_texts xs) xs
unfolding sorted_texts
sorted_texts-perm [] = Perm.rfl
sorted_texts-perm (x ∷ xs) =
    Perm.trans (insert_sorted-perm x (sorted_texts xs)) (Perm.cons x (sorted_texts-perm xs))

sorted_texts-Perm_iff :
    (xs ys : List Text) → ((sorted_texts xs == sorted_texts ys) ≡ true) ↔ Perm xs ys
sorted_texts-Perm_iff xs ys =
    let same = (list_eq {A = Text}).beq_iff (sorted_texts xs) (sorted_texts ys) in
    (
      λ h.
          Perm.trans (Perm.symm (sorted_texts-perm xs))
            (subst (λ zs. Perm zs ys) (sym (same.0 h)) (sorted_texts-perm ys)),
      λ p. same.1 (sorted_texts-Perm p),
    )

other_columns : (sorted_texts storage_columns == sorted_texts cpu_mem_usage_columns) ≡ false
unfolding sorted_texts insert_sorted text_leb
other_columns = refl

other_type :
    (columns : List Text)
    → (sorted_texts columns == sorted_texts cpu_mem_usage_columns) ≡ true
    → (sorted_texts columns == sorted_texts storage_columns) ≡ false
other_type columns h = elim (Bool-cases (sorted_texts columns == sorted_texts storage_columns)) [
  | inr e ↦ e
  | inl e ↦
      let is_storage =
        ((list_eq {A = Text}).beq_iff (sorted_texts columns) (sorted_texts storage_columns)).0 e in
      cc other_columns
]

abbrev type_by : Bool → Bool → OcpReportType
type_by is_storage is_usage =
    if is_storage then storage else if is_usage then cpu_mem_usage else unknown

storage_test :
    (a b : Bool) → ocp_processor (some (type_by a b)) ≡ processor ocp_storage_processor → a ≡ true
storage_test true b h = refl
storage_test false true h = cc
storage_test false false h = cc

usage_test :
    (a b : Bool) → ocp_processor (some (type_by a b)) ≡ processor ocp_cpu_mem_processor → b ≡ true
usage_test true b h = cc
usage_test false true h = refl
usage_test false false h = cc

set_processor-ocp :
    (provider_type : String) (header : Option (List Text))
    → is_aws provider_type ≡ false
    → is_ocp provider_type ≡ true
    → set_processor provider_type header ≡ ocp_processor (detect_report_type header)
unfolding set_processor
set_processor-ocp provider_type header a o = rw (a, o) refl

-- A file of an OpenShift provider type gets the storage processor if and only if its columns are the
-- storage columns in some order, and the usage processor if and only if they are the usage columns in
-- some order.
pub set_processor-Perm :
    (provider_type : String) (column_names : List Text)
    → is_aws provider_type ≡ false
    → is_ocp provider_type ≡ true
    → ((set_processor provider_type (some column_names) ≡ processor ocp_storage_processor)
        ↔ Perm column_names storage_columns)
      × ((set_processor provider_type (some column_names) ≡ processor ocp_cpu_mem_processor)
          ↔ Perm column_names cpu_mem_usage_columns)
unfolding detect_report_type
set_processor-Perm provider_type column_names a o =
    let is_storage = sorted_texts-Perm_iff column_names storage_columns in
    let is_usage = sorted_texts-Perm_iff column_names cpu_mem_usage_columns in
    let chosen = set_processor-ocp provider_type (some column_names) a o in
    (
      (
        λ h. is_storage.0 (storage_test _ _ (sym chosen ∙ h)),
        λ p. chosen ∙ rw (is_storage.1 p) refl,
      ),
      (
        λ h. is_usage.0 (usage_test _ _ (sym chosen ∙ h)),
        λ p. chosen ∙ rw (other_type column_names (is_usage.1 p), is_usage.1 p) refl,
      ),
    )
