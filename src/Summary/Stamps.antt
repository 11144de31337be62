-- ===== src/Summary/Stamps.antt =====
-- The stamps that a summary run writes on the rows of a month.
use masu.Prelude.{
  ℕ, ◌≡◌, refl, ap, sym, Bool, true, ◌||◌, Option, none, some, List, [], ◌∷◌, is_some, map, select,
  nat_eq, if◌then◌else◌, Bool-cases, inl, inr,
}
use masu.Summary.{Date, Moment, Period, starts_on, of_month, first_day, stamp, creation}

-- A filter whose test a function respects commutes with it.
pub select-map {ℓ} :
    {A : Type ℓ} (keep : A → Bool) (f : A → A) (xs : List A)
    → ((a : A) → keep (f a) ≡ keep a)
    → select keep (map f xs) ≡ map f (select keep xs)
select-map keep f [] h = refl
select-map keep f (x ∷ xs) h = elim (Bool-cases (keep x)) [
  | inl e ↦ rw (h, e, select-map keep f xs h)
  | inr e ↦ rw (h, e, select-map keep f xs h)
]

abbrev pub stamped : Moment → ℕ → Date → Period → Period
stamped now provider_id date p = if of_month provider_id date p then stamp now p else p

starts_on-stamp :
    (now : Moment) (i : ℕ) (date : Date) (p : Period)
    → starts_on i date (stamp now p) ≡ starts_on i date p
unfolding stamp starts_on
starts_on-stamp now i date p = refl

finalized-stamp :
    (now : Moment) (p : Period) → (stamp now p).finalized_datetime ≡ p.finalized_datetime
unfolding stamp
finalized-stamp now p = refl

created-creation : (now : Moment) (o : Option Moment) → is_some (creation now o) ≡ true
created-creation now none = refl
created-creation now (some t) = refl

created-stamp :
    (now : Moment) (p : Period) → is_some (stamp now p).summary_data_creation_datetime ≡ true
unfolding stamp
created-stamp now p = created-creation now p.summary_data_creation_datetime

pub stamped-starts_on :
    (now : Moment) (k : ℕ) (date other : Date) (i : ℕ) (p : Period)
    → starts_on i other (stamped now k date p) ≡ starts_on i other p
stamped-starts_on now k date other i p = elim (Bool-cases (of_month k date p)) [
  | inl e ↦ rw e (starts_on-stamp now i other p)
  | inr e ↦ rw e refl
]

pub stamped-finalized :
    (now : Moment) (k : ℕ) (date : Date) (p : Period)
    → (stamped now k date p).finalized_datetime ≡ p.finalized_datetime
stamped-finalized now k date p = elim (Bool-cases (of_month k date p)) [
  | inl e ↦ rw e (finalized-stamp now p)
  | inr e ↦ rw e refl
]

-- A row of the month has a creation date after its stamp, and no row loses its own.
pub stamped-created :
    (now : Moment) (k : ℕ) (date : Date) (p : Period)
    → of_month k date p || is_some p.summary_data_creation_datetime ≡ true
    → is_some (stamped now k date p).summary_data_creation_datetime ≡ true
stamped-created now k date p h = elim (Bool-cases (of_month k date p)) [
  | inl e ↦ rw e (created-stamp now p)
  | inr e ↦ rw e (simp e at h)
]

pub first_day-same : (d : Date) → d.day ≡ 1 → first_day d ≡ d
first_day-same d h = ap (λ n. record d { day = n }) (sym h)
