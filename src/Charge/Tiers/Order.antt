-- ===== src/Charge/Tiers/Order.antt =====
-- What `normalize_tier` does to a list of tiers.
use mathlib.Core.List.Perm
use mathlib.Core.List.{Perm, perm_middle, append_assoc}
use masu.Prelude.{
  ◌≡◌, inl, inr, refl, Bool, true, false, ◌&&◌, List, [], ◌∷◌, ◌++◌, arith, map, length, select,
  select-All, All, Bool-cases, nat_eq,
}
use masu.Charge.{Text, Tier, Error, ok, require, truthy}
use masu.Charge.Numeral.{text_leb}
use masu.Charge.Tiers.{
  is_first, is_last, is_middle, end_text, insert_tier, sorted, pop_end, normalize_tier,
}

insert_tier-perm : (t : Tier) (ts : List Tier) → Perm (insert_tier t ts) (t ∷ ts)
unfolding insert_tier
insert_tier-perm t [] = Perm.refl (t ∷ [])
insert_tier-perm t (u ∷ us) = elim (Bool-cases (text_leb (end_text t) (end_text u))) [
  | inl e ↦ rw e (Perm.refl (t ∷ u ∷ us))
  | inr e ↦ rw e (Perm.trans (Perm.cons u (insert_tier-perm t us)) (Perm.swap t u us))
]

sorted-perm : (ts : List Tier) → Perm (sorted ts) ts
unfolding sorted
sorted-perm [] = Perm.refl []
sorted-perm (t ∷ ts) = Perm.trans (insert_tier-perm t (sorted ts)) (Perm.cons t (sorted-perm ts))

-- The exactly one element of a list of length one.
only_element {ℓ} : {A : Type ℓ} (l : List A) → length l ≡ 1 → (a : A) × (l ≡ a ∷ [])
only_element [] h = absurd (omega arith)
only_element (a ∷ []) h = (a, refl)
only_element (a ∷ b ∷ l) h = absurd (omega arith)

require-eq-ok : (b : Bool) (e : Error) {u : Unit {0}} → require b e ≡ ok u → b ≡ true
require-eq-ok true e h = refl
require-eq-ok false e h = cc

-- A tier with neither a start nor an end.
abbrev pub is_flat : Tier → Bool
is_flat t = is_first t && is_last t

-- The three selections of a list without flat tiers make up the list.
selections-perm :
    (g : Tier → Tier) (ts : List Tier)
    → All (λ t. is_flat t ≡ false) ts
    → Perm
        (map g (select is_first ts) ++ (map g (select is_middle ts) ++ map g (select is_last ts)))
        (map g ts)
selections-perm g [] h = Perm.refl []
selections-perm g (t ∷ ts) (h, hs) =
    let ih = selections-perm g ts hs in
    elim (Bool-cases (truthy t.usage_start)) [
      | inl s ↦ elim (Bool-cases (truthy t.usage_end)) [
        | inl e ↦
            rw (s, e) (Perm.trans (perm_middle (map g (select is_first ts)) _) (Perm.cons (g t) ih))
        | inr e ↦
            rw (s, e, ← append_assoc)
              (Perm.trans
                (perm_middle (map g (select is_first ts) ++ map g (select is_middle ts)) _)
                (Perm.cons (g t) (rw append_assoc ih)))
      ]
      | inr s ↦ elim (Bool-cases (truthy t.usage_end)) [
        | inl e ↦ rw (s, e) (Perm.cons (g t) ih)
        | inr e ↦ absurd (ground arith)
      ]
    ]

text_leb_total : (a b : Text) → text_leb a b ≡ false → text_leb b a ≡ true
unfolding text_leb
text_leb_total [] b h = cc
text_leb_total (c ∷ cs) [] h = refl
text_leb_total (c ∷ cs) (d ∷ ds) h = ground (arith, text_leb_total cs ds)

-- Each tier's end is at most the next one's, in the order of `str`.
abbrev pub IsSorted : List Tier → Type 0
IsSorted [] = Unit
IsSorted (t ∷ []) = Unit
IsSorted (t ∷ u ∷ us) = (text_leb (end_text t) (end_text u) ≡ true) × IsSorted (u ∷ us)

insert_tier-IsSorted_after :
    (v t : Tier) (ts : List Tier)
    → text_leb (end_text v) (end_text t) ≡ true
    → IsSorted (v ∷ ts)
    → IsSorted (v ∷ insert_tier t ts)
unfolding insert_tier
insert_tier-IsSorted_after v t [] h s = (h, tt)
insert_tier-IsSorted_after v t (u ∷ us) h (s, ss) =
    elim (Bool-cases (text_leb (end_text t) (end_text u))) [
      | inl e ↦ rw e (h, (e, ss))
      | inr e ↦ rw e (s, insert_tier-IsSorted_after u t us (text_leb_total _ _ e) ss)
    ]

insert_tier-IsSorted : (t : Tier) (ts : List Tier) → IsSorted ts → IsSorted (insert_tier t ts)
unfolding insert_tier
insert_tier-IsSorted t [] s = tt
insert_tier-IsSorted t (u ∷ us) s = elim (Bool-cases (text_leb (end_text t) (end_text u))) [
  | inl e ↦ rw e (e, s)
  | inr e ↦ rw e (insert_tier-IsSorted_after u t us (text_leb_total _ _ e) s)
]

sorted-IsSorted : (ts : List Tier) → IsSorted (sorted ts)
unfolding sorted
sorted-IsSorted [] = tt
sorted-IsSorted (t ∷ ts) = insert_tier-IsSorted t (sorted ts) (sorted-IsSorted ts)

map-pop_end-middle : (ts : List Tier) → map pop_end (select is_middle ts) ≡ select is_middle ts
map-pop_end-middle [] = refl
map-pop_end-middle (t ∷ ts) = ground (arith, map-pop_end-middle ts)

-- What a successful call returns.
normalize_tier-eq-ok :
    (ts : List Tier) {r : List Tier}
    → normalize_tier ts ≡ ok r
    → (length (select is_first ts) ≡ 1)
      × (length (select is_last ts) ≡ 1)
      × (r
          ≡ map pop_end (select is_first ts)
            ++ (sorted (select is_middle ts) ++ map pop_end (select is_last ts)))
unfolding normalize_tier
normalize_tier-eq-ok ts h = ground arith

-- What the result of a successful normalization is: the one tier without a start, the others
-- sorted by the text of their ends, the one tier without an end, and no tier lost or made up.
pub record IsNormalized (ts r : List Tier) : Type 0 where
  pub head : Tier
  pub middle : List Tier
  pub final : Tier
  pub parts : r ≡ head ∷ (middle ++ final ∷ [])
  pub head_first : is_first head ≡ true
  pub final_last : is_last final ≡ true
  pub middle_sorted : IsSorted middle
  pub perm : Perm r (map pop_end ts)

pop_end-is_first : (t : Tier) → is_first t ≡ true → is_first (pop_end t) ≡ true
pop_end-is_first t h = ground arith

pop_end-is_last : (t : Tier) → is_last t ≡ true → is_last (pop_end t) ≡ true
pop_end-is_last t h = ground arith

-- Where `_normalize_tier` succeeds on a list in which no tier lacks both a start and an end, its
-- result is one tier without a start, then the middle tiers sorted by the text of their ends, then
-- one tier without an end, and it is a permutation of the given tiers, the last one without its key
-- `usage_end`.
pub normalize_tier-IsNormalized :
    (ts r : List Tier)
    → All (λ t. is_flat t ≡ false) ts
    → normalize_tier ts ≡ ok r
    → IsNormalized ts r
normalize_tier-IsNormalized ts r flat h =
    let (one_first, one_last, e) = normalize_tier-eq-ok ts h in
    let (f, ef) = only_element (select is_first ts) one_first in
    let (l, el) = only_element (select is_last ts) one_last in
    let firsts = select-All is_first ts in
    let lasts = select-All is_last ts in
    record {
      head = pop_end f;
      middle = sorted (select is_middle ts);
      final = pop_end l;
      parts = rw (ef, el) at e;
      head_first = pop_end-is_first f (rw ef at firsts).0;
      final_last = pop_end-is_last l (rw el at lasts).0;
      middle_sorted = sorted-IsSorted (select is_middle ts);
      perm = rw e (
          Perm.trans (Perm.append_left _ (Perm.append_right _ (sorted-perm (select is_middle ts))))
            (rw map-pop_end-middle at (selections-perm pop_end ts flat)));
    }
