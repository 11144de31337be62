-- ===== src/AwsReport/Batches.antt =====
-- The batches of `process`, and the files on which it raises.
use mathlib.Core.Path.{subst}
use mathlib.Core.Option.{some-injective}
use mathlib.Core.List.{append-nil, append_assoc}
use masu.Prelude.{
  ℕ, suc, ◌≡◌, refl, ap, sym, ◌∙◌, Option, none, some, List, [], ◌∷◌, ◌++◌, length, leb, nat_eq,
  Bool-cases, inl, inr,
}
use masu.Prelude.Options.{and_then, and_then-eq-some, Gives, Gives-and_then, Gives-map, Gives-some}
use masu.AwsReport.Row.{CsvRow}
use masu.AwsReport.State.{Setup, Processor, AwsTables, LineItem}
use masu.AwsReport.Entries.{create_cost_entry_objects}
use masu.AwsReport.LineItems.{OneMore, create_cost_entry_objects-OneMore}
use masu.AwsReport.{
  Manifest, delete_line_items, save_to_db, after_batch, process_batch, last_batch, process_rows,
  check_for_finalized_bill, process,
}

-- What is stored and what waits in the batch.
abbrev held : Processor → List LineItem
held p = p.tables.line_items ++ p.line_items

-- The items of `count` rows behind those that were held.
pub record Adds (count : ℕ) (before after : List LineItem) : Type 0 where
  pub new : List LineItem
  pub items : after ≡ before ++ new
  pub one_each : length new ≡ count

after_save :
    (p : Processor) (batch : List LineItem)
    → p.line_items ≡ batch
    → Gives
        (λ p'. held p' ≡ held p)
        (and_then (save_to_db batch p.tables) (λ t. some (after_batch p t)))
after_save p [] e = tt
after_save p (item ∷ batch) e =
    append-nil (p.tables.line_items ++ item ∷ batch)
    ∙ ap (λ items. p.tables.line_items ++ items) (sym e)

process_batch-held :
    (batch_size : ℕ) (p : Processor) → Gives (λ p'. held p' ≡ held p) (process_batch batch_size p)
unfolding process_batch
process_batch-held batch_size p = elim (Bool-cases (leb batch_size (length p.line_items))) [
  | inl full ↦ rw full (after_save p p.line_items refl)
  | inr small ↦ rw small refl
]

last_batch-held :
    (p : Processor) (batch : List LineItem)
    → p.line_items ≡ batch
    → Gives (λ t. t.line_items ≡ held p) (last_batch batch p.tables)
last_batch-held p [] e =
    sym (append-nil p.tables.line_items) ∙ ap (λ items. p.tables.line_items ++ items) (sym e)
last_batch-held p (item ∷ batch) e = ap (λ items. p.tables.line_items ++ items) (sym e)

held-OneMore : (p p' : Processor) (more : OneMore p p') → held p' ≡ held p ++ more.item ∷ []
held-OneMore p p' more =
    ap (λ items. items ++ p'.line_items) more.table
    ∙ (ap (λ items. p.tables.line_items ++ items) more.batch
        ∙ sym (append_assoc p.tables.line_items p.line_items (more.item ∷ [])))

Adds-one :
    (count : ℕ) (before after : List LineItem) (item : LineItem)
    → Adds count (before ++ item ∷ []) after
    → Adds (suc count) before after
Adds-one count before after item adds = record {
  new = item ∷ adds.new;
  items = adds.items ∙ append_assoc before (item ∷ []) adds.new;
  one_each = ap suc adds.one_each;
}

process_rows-Adds :
    (setup : Setup) (rows : List CsvRow) (bill_id : Option ℕ) (p : Processor)
    → Gives
        (λ out. Adds (length rows) (held p) out.1.line_items)
        (process_rows setup rows bill_id p)
unfolding process_rows
process_rows-Adds setup [] bill_id p =
    Gives-and_then (λ t. t.line_items ≡ held p) _ (last_batch p.line_items p.tables) _
      (last_batch-held p p.line_items refl)
      (λ t e. record { new = []; items = e ∙ sym (append-nil (held p)); one_each = refl })
process_rows-Adds setup (row ∷ rows) bill_id p =
    Gives-and_then (λ out. OneMore p out.1)
      (λ out. Adds (suc (length rows)) (held p) out.1.line_items)
      (create_cost_entry_objects setup row p) _ (create_cost_entry_objects-OneMore setup row p)
      (λ (id, p₁) more.
        Gives-and_then (λ p₂. held p₂ ≡ held p₁)
          (λ out. Adds (suc (length rows)) (held p) out.1.line_items)
          (process_batch setup.batch_size p₁) _ (process_batch-held setup.batch_size p₁)
          (λ p₂ e.
            Gives-map {A = Option ℕ × AwsTables}
              (λ out. Adds (length rows) (held p₂) out.1.line_items)
              (λ out. Adds (suc (length rows)) (held p) out.1.line_items) _
              (λ out adds.
                Adds-one (length rows) (held p) out.1.line_items more.item
                  (rw (e ∙ held-OneMore p p₁ more) at adds))
              (process_rows-Adds setup rows (some id) p₂)))

-- Whatever the batches, a run of `process` that gives something leaves the line items that the
-- deletion for the manifest's first file kept, those that waited in the batch, and behind them one line
-- item for each row of the file.
pub returned-Adds :
    (setup : Setup) (manifest : Option Manifest) (rows : List CsvRow) (now : ℕ) (p : Processor)
    (finalized : List (ℕ × ℕ)) (t : AwsTables) (finalized' : List (ℕ × ℕ))
    → process setup manifest rows now p finalized ≡ some (t, finalized')
    → Adds
        (length rows)
        ((delete_line_items manifest p.tables).line_items ++ p.line_items)
        t.line_items
unfolding process
returned-Adds setup manifest rows now p finalized t finalized' h =
    let p' : Processor = record p { tables = delete_line_items manifest p.tables } in
    let (is_finalized, e, h') = and_then-eq-some (check_for_finalized_bill rows) _ h in
    let ((bill_id, t'), e', h'') = and_then-eq-some (process_rows setup rows none p') _ h' in
    subst (λ u. Adds (length rows) (held p') u.line_items)
      (ap (λ out. out.0) (some-injective _ _ h''))
      (Gives-some (λ out. Adds (length rows) (held p') out.1.line_items) _ e'
        (process_rows-Adds setup rows none p'))
