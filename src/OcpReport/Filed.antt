-- ===== src/OcpReport/Filed.antt =====
-- Where a row of the file ends up (`_create_report_period`, `_create_report` and
-- `_create_usage_report_line_item` of masu/processor/ocp/ocp_report_processor.py), on the sheet.
use masu.Prelude.{
  ℕ, ◌≡◌, refl, ◌∙◌, Bool, true, false, ◌||◌, ◌&&◌, Option, none, some, List, [], ◌∷◌, any, All, Eq,
  ◌==◌, ==-refl, nat_eq, string_eq, option_eq, pair_eq, list_eq, contains, Bool-cases, inl, inr,
}
use mathlib.Core.Path.{subst}
use masu.Tables.{Table}
use masu.Tables.Caches.{row_id, insert_row, insert_row-row_id, insert_row-keeps}
use masu.Tables.Clean.{scalar_eq}
use masu.OcpReport.Items.{TimedRow, Kind, LineItem, ItemKey, item_key, line_item}
use masu.OcpReport.{
  stamp_eq, period_key, report_key, OcpTables, Setup, period_of, report_of, in_conflict, upsert,
}
use masu.OcpReport.Sheet.{Sheet, found_or, put_period, put_report, put_item, put_row, put_rows}

module _ {K R : Type 0} ⦃e : Eq K⦄ (key_of : R → K) where
  -- Every id that is known of the key of a row stands at a row with that key.
  abbrev pub Sound : (K → Option ℕ) → Table R → Type 0
  Sound ids t = (r : R) (id : ℕ) → ids (key_of r) ≡ some id → row_id key_of (key_of r) t ≡ some id

  record Found (t : Table R) (key : K) (out : ℕ × (K → Option ℕ) × Table R) : Type 0 where
    pub found : row_id key_of key out.2 ≡ some out.0
    pub sound : Sound out.1 out.2
    pub keeps : (k : K) (id : ℕ) → row_id key_of k t ≡ some id → row_id key_of k out.2 ≡ some id

  found_or-Found :
      (r : R) (ids : K → Option ℕ) (t : Table R) (known : Option ℕ)
      → ids (key_of r) ≡ known
      → Sound ids t
      → Found t (key_of r) (found_or known (key_of r) (insert_row key_of r) ids t)
  found_or-Found r ids t (some id) h c = record { found = c r id h; sound = c; keeps = λ k i p. p }
  found_or-Found r ids t none h c = record {
    found = insert_row-row_id key_of r t;
    sound = λ q i p. elim (Bool-cases (key_of q == key_of r)) [
      | inl same ↦
          rw ((e.beq_iff (key_of q) (key_of r)).0 same)
            (insert_row-row_id key_of r t ∙ (rw same at p))
      | inr other ↦ insert_row-keeps key_of r t (key_of q) i (c q i (rw other at p))
    ];
    keeps = insert_row-keeps key_of r t;
  }

-- A line item with the key.
abbrev pub has_item_key : Kind → ItemKey → List LineItem → Bool
has_item_key kind key items = any (λ item. item_key kind item == key) items

upsert-has_item_key :
    (kind : Kind) (item : LineItem) (items : List LineItem)
    → has_item_key kind (item_key kind item) (upsert kind item items) ≡ true
unfolding upsert
upsert-has_item_key kind item [] = rw (==-refl (item_key kind item)) refl
upsert-has_item_key kind item (other ∷ items) = elim (Bool-cases (in_conflict kind item other)) [
  | inl e ↦ rw (e, ==-refl (item_key kind item)) refl
  | inr e ↦ rw (e, upsert-has_item_key kind item items) (Bool-or-true _)
]
  where
    Bool-or-true : (b : Bool) → b || true ≡ true
    Bool-or-true true = refl
    Bool-or-true false = refl

and_right : (a b : Bool) → (a && b) ≡ true → b ≡ true
and_right true b h = h
and_right false b h = cc

eq_of : {K : Type 0} ⦃e : Eq K⦄ → (a b : K) → (a == b) ≡ true → a ≡ b
eq_of ⦃e⦄ a b h = (e.beq_iff a b).0 h

in_conflict-key :
    (kind : Kind) (item other : LineItem)
    → in_conflict kind item other ≡ true
    → item_key kind other ≡ item_key kind item
unfolding in_conflict
in_conflict-key kind item other h =
    eq_of (item_key kind other) (item_key kind item) (and_right _ _ h)

upsert-keeps :
    (kind : Kind) (item : LineItem) (key : ItemKey) (items : List LineItem)
    → has_item_key kind key items ≡ true
    → has_item_key kind key (upsert kind item items) ≡ true
unfolding upsert
upsert-keeps kind item key [] h = cc
upsert-keeps kind item key (other ∷ items) h = elim (Bool-cases (in_conflict kind item other)) [
  | inl e ↦ rw e (
      subst (λ k. (k == key || has_item_key kind key items) ≡ true)
        (in_conflict-key kind item other e) h)
  | inr e ↦ elim (Bool-cases (item_key kind other == key)) [
    | inl same ↦ rw (e, same) refl
    | inr differ ↦ rw (e, differ) (upsert-keeps kind item key items (rw differ at h))
  ]
]

-- A row's period and report are in their tables, and so is a line item with the id of this report and
-- the row's own values in the conflict columns.
pub record Filed (setup : Setup) (t : OcpTables) (row : TimedRow) : Type 0 where
  pub report_period_id : ℕ
  pub period_found :
      row_id period_key (period_key (period_of setup row)) t.report_periods ≡ some report_period_id
  pub report_id : ℕ
  pub report_found :
      row_id report_key (report_key (report_of row report_period_id)) t.reports ≡ some report_id
  pub has_item :
      has_item_key setup.kind
        (item_key setup.kind (line_item setup.python setup.kind row report_period_id report_id))
        t.line_items
      ≡ true

-- What is known is in the tables.
pub record IsSound (kind : Kind) (s : Sheet) : Type 0 where
  pub periods : Sound period_key s.periods s.tables.report_periods
  pub reports : Sound report_key s.reports s.tables.reports
  pub seen :
      (key : ItemKey)
      → contains s.seen key ≡ true
      → has_item_key kind key s.tables.line_items ≡ true

-- Tables that hold what others hold.
pub record Holds (kind : Kind) (t t' : OcpTables) : Type 0 where
  pub periods :
      (r : _) (id : ℕ)
      → row_id period_key r t.report_periods ≡ some id
      → row_id period_key r t'.report_periods ≡ some id
  pub reports :
      (r : _) (id : ℕ)
      → row_id report_key r t.reports ≡ some id
      → row_id report_key r t'.reports ≡ some id
  pub items :
      (key : ItemKey)
      → has_item_key kind key t.line_items ≡ true
      → has_item_key kind key t'.line_items ≡ true

Filed-Holds :
    (setup : Setup) (t t' : OcpTables) (row : TimedRow)
    → Holds setup.kind t t'
    → Filed setup t row
    → Filed setup t' row
Filed-Holds setup t t' row h f = record {
  report_period_id = f.report_period_id;
  period_found = h.periods _ _ f.period_found;
  report_id = f.report_id;
  report_found = h.reports _ _ f.report_found;
  has_item = h.items _ f.has_item;
}

Holds-trans : {kind : Kind} {t u w : OcpTables} → Holds kind t u → Holds kind u w → Holds kind t w
Holds-trans h k = record {
  periods = λ r id e. k.periods r id (h.periods r id e);
  reports = λ r id e. k.reports r id (h.reports r id e);
  items = λ key e. k.items key (h.items key e);
}

put_period-Filed :
    (setup : Setup) (row : TimedRow) (s : Sheet)
    → IsSound setup.kind s
    → let out = put_period setup row s in
      IsSound setup.kind out.1
      × (row_id period_key (period_key (period_of setup row)) out.1.tables.report_periods
          ≡ some out.0)
      × Holds setup.kind s.tables out.1.tables
unfolding put_period
put_period-Filed setup row s v =
    let r = period_of setup row in
    let f =
      found_or-Found period_key r s.periods s.tables.report_periods (s.periods (period_key r)) refl
        v.periods in
    (
      record { periods = f.sound; reports = v.reports; seen = v.seen },
      f.found,
      record { periods = f.keeps; reports = λ r id h. h; items = λ key h. h },
    )

put_report-Filed :
    (kind : Kind) (row : TimedRow) (report_period_id : ℕ) (s : Sheet)
    → IsSound kind s
    → let out = put_report row report_period_id s in
      IsSound kind out.1
      × (row_id report_key (report_key (report_of row report_period_id)) out.1.tables.reports
          ≡ some out.0)
      × Holds kind s.tables out.1.tables
unfolding put_report
put_report-Filed kind row report_period_id s v =
    let r = report_of row report_period_id in
    let f =
      found_or-Found report_key r s.reports s.tables.reports (s.reports (report_key r)) refl
        v.reports in
    (
      record { periods = v.periods; reports = f.sound; seen = v.seen },
      f.found,
      record { periods = λ r id h. h; reports = f.keeps; items = λ key h. h },
    )

put_item-Filed :
    (setup : Setup) (row : TimedRow) (i j : ℕ) (s : Sheet)
    → IsSound setup.kind s
    → let key = item_key setup.kind (line_item setup.python setup.kind row i j) in
      IsSound setup.kind (put_item setup row i j s)
      × (has_item_key setup.kind key (put_item setup row i j s).tables.line_items ≡ true)
      × Holds setup.kind s.tables (put_item setup row i j s).tables
unfolding put_item
put_item-Filed setup row i j s v =
    let item = line_item setup.python setup.kind row i j in
    let key = item_key setup.kind item in
    elim (Bool-cases (contains s.seen key)) [
      | inl old ↦ rw old (
        v,
        v.seen key old,
        record { periods = λ r id h. h; reports = λ r id h. h; items = λ key h. h },
      )
      | inr new ↦ rw new (
        record {
          periods = v.periods;
          reports = v.reports;
          seen = λ k h. elim (Bool-cases (k == key)) [
            | inl same ↦
                rw (eq_of k key same) (upsert-has_item_key setup.kind item s.tables.line_items)
            | inr other ↦
                upsert-keeps setup.kind item k s.tables.line_items (v.seen k (rw other at h))
          ];
        },
        upsert-has_item_key setup.kind item s.tables.line_items,
        record {
          periods = λ r id h. h;
          reports = λ r id h. h;
          items = λ k h. upsert-keeps setup.kind item k s.tables.line_items h;
        },
      )
    ]

put_row-Filed :
    (setup : Setup) (row : TimedRow) (s : Sheet)
    → IsSound setup.kind s
    → IsSound setup.kind (put_row setup row s)
      × Filed setup (put_row setup row s).tables row
      × Holds setup.kind s.tables (put_row setup row s).tables
unfolding put_row
put_row-Filed setup row s v =
    let (i, s') = put_period setup row s in
    let (v', p, h) = put_period-Filed setup row s v in
    let (j, s'') = put_report row i s' in
    let (v'', r, h') = put_report-Filed setup.kind row i s' v' in
    let (v''', k, h'') = put_item-Filed setup row i j s'' v'' in
    (
      v''',
      record {
        report_period_id = i;
        period_found = h''.periods _ _ (h'.periods _ _ p);
        report_id = j;
        report_found = h''.reports _ _ r;
        has_item = k;
      },
      Holds-trans h (Holds-trans h' h''),
    )

pub put_rows-Filed :
    (setup : Setup) (rows : List TimedRow) (s : Sheet)
    → IsSound setup.kind s
    → All (Filed setup (put_rows setup rows s).tables) rows
      × Holds setup.kind s.tables (put_rows setup rows s).tables
unfolding put_rows
put_rows-Filed setup [] s v =
    (tt, record { periods = λ r id h. h; reports = λ r id h. h; items = λ key h. h })
put_rows-Filed setup (row ∷ rows) s v =
    let (v', f, h) = put_row-Filed setup row s v in
    let (fs, h') = put_rows-Filed setup rows (put_row setup row s) v' in
    ((Filed-Holds setup _ _ row h' f, fs), Holds-trans h h')
