-- ===== src/Payload/Confirmed.antt =====
-- The confirmations of `process_messages`.
use mathlib.Core.Path.{subst}
use mathlib.Core.List.{append-nil, append_assoc}
use masu.Prelude.{
  ◌≡◌, ◌⊎◌, refl, ap, sym, ◌∙◌, Bool, true, false, Option, none, some, List, [], ◌∷◌, ◌++◌, map,
  select, length, if◌then◌else◌, Bool-cases, inl, inr,
}
use masu.Tables.Clean.{Text}
use masu.Payload.Files.{Details}
use masu.Payload.{Services, Extraction, returned, failed, raised, Disk, extract_payload}
use masu.Payload.Queue.{
  Message, Status, success, failure, handled, handle_url, handle_message, Listener, confirm,
  process_if, after_handling, process_message, process_messages,
}

-- What one turn does to the confirmations.
data Turn (msg : Message) (l l' : Listener) : Type 0 where
  skipped : msg.is_hccm ≡ false → l'.confirmed ≡ l.confirmed → l'.is_running ≡ true → Turn msg l l'
  answered :
      (request_id : Text) (status : Status)
      → msg.is_hccm ≡ true
      → msg.request_id ≡ some request_id
      → l'.confirmed ≡ l.confirmed ++ (request_id, status) ∷ []
      → l'.is_running ≡ true
      → Turn msg l l'
  ended : l'.confirmed ≡ l.confirmed → l'.is_running ≡ false → Turn msg l l'

reported :
    (is_running : Bool) (l l' : Listener)
    → l'.confirmed ≡ l.confirmed
    → l'.is_running ≡ l.is_running
    → let out = if is_running then l' else l in
      (out.confirmed ≡ l.confirmed) × (out.is_running ≡ l.is_running)
reported true l l' c r = (c, r)
reported false l l' c r = (refl, refl)

-- `process_if` leaves both alone.
process_if-confirmed :
    (details : Option Details) (l : Listener)
    → ((process_if details l).confirmed ≡ l.confirmed)
      × ((process_if details l).is_running ≡ l.is_running)
process_if-confirmed none l = (refl, refl)
process_if-confirmed (some details) l =
    reported l.is_running l (record l { reports = l.reports ++ details ∷ [] }) refl refl

process_if-Turn :
    (msg : Message) (details : Option Details) (l l' : Listener)
    → Turn msg l l'
    → Turn msg l (process_if details l')
process_if-Turn msg details l l' (skipped other e r) =
    let (c, run) = process_if-confirmed details l' in skipped other (c ∙ e) (run ∙ r)
process_if-Turn msg details l l' (answered request_id status is_hccm asked e r) =
    let (c, run) = process_if-confirmed details l' in
    answered request_id status is_hccm asked (c ∙ e) (run ∙ r)
process_if-Turn msg details l l' (ended e r) =
    let (c, run) = process_if-confirmed details l' in ended (c ∙ e) (run ∙ r)

confirm-Turn :
    (s : Services) (msg : Message) (request_id : Option Text) (status : Status) (l : Listener)
    → msg.is_hccm ≡ true
    → msg.request_id ≡ request_id
    → l.is_running ≡ true
    → Turn msg l (confirm s request_id status l)
confirm-Turn s msg none status l is_hccm asked r = ended refl refl
confirm-Turn s msg (some request_id) status l is_hccm asked r =
    elim (Bool-cases (s.sends (length l.confirmed))) [
      | inl sent ↦ rw sent (answered request_id status is_hccm asked refl r)
      | inr lost ↦ rw lost (ended refl refl)
    ]

-- A turn does not look at the disk.
any_disk :
    {msg : Message} {l l' : Listener} {d : Disk}
    → Turn msg (record l { disk = d }) l'
    → Turn msg l l'
any_disk (skipped other e r) = skipped other e r
any_disk (answered request_id status is_hccm asked e r) =
    answered request_id status is_hccm asked e r
any_disk (ended e r) = ended e r

handled-Turn :
    (s : Services) (msg : Message) (out : Extraction Details × Disk) (l : Listener)
    → msg.is_hccm ≡ true
    → l.is_running ≡ true
    → Turn msg l (after_handling s msg.request_id (handled out) l)
handled-Turn s msg (returned details, d) l is_hccm r =
    let l' : Listener = record l { disk = d } in
    process_if-Turn msg (some details) l (confirm s msg.request_id success l')
      (any_disk (confirm-Turn s msg msg.request_id success l' is_hccm refl r))
handled-Turn s msg (failed, d) l is_hccm r =
    any_disk (confirm-Turn s msg msg.request_id failure (record l { disk = d }) is_hccm refl r)
handled-Turn s msg (raised, d) l is_hccm r = ended refl refl

handle_url-Turn :
    (s : Services) (msg : Message) (url : Option Text) (l : Listener)
    → msg.is_hccm ≡ true
    → l.is_running ≡ true
    → Turn msg l (after_handling s msg.request_id (handle_url s url l.disk) l)
handle_url-Turn s msg none l is_hccm r = ended refl refl
handle_url-Turn s msg (some url) l is_hccm r =
    handled-Turn s msg (extract_payload s url l.disk) l is_hccm r

topic-Turn :
    (s : Services) (msg : Message) (l : Listener) (is_hccm : Bool)
    → msg.is_hccm ≡ is_hccm
    → l.is_running ≡ true
    → Turn msg l (
        after_handling s msg.request_id
          (if is_hccm then handle_url s msg.url l.disk else (returned (none, none), l.disk))
          l)
topic-Turn s msg l true e r = handle_url-Turn s msg msg.url l e r
topic-Turn s msg l false e r = skipped e refl r

pub if-true : {A : Type 0} (b : Bool) (x y : A) → b ≡ true → (if b then x else y) ≡ x
if-true true x y e = refl
if-true false x y e = cc

if-false : {A : Type 0} (b : Bool) (x y : A) → b ≡ false → (if b then x else y) ≡ y
if-false true x y e = cc
if-false false x y e = refl

process_message-Turn :
    (s : Services) (msg : Message) (l : Listener)
    → l.is_running ≡ true
    → Turn msg l (process_message s msg l)
unfolding process_message handle_message
process_message-Turn s msg l r =
    let l' = after_handling s msg.request_id (handle_message s msg l.disk) l in
    subst (Turn msg l) (sym (if-true l.is_running l' l r)) (topic-Turn s msg l msg.is_hccm refl r)

-- A task that has ended does nothing.
pub process_messages-ended :
    (s : Services) (msgs : List Message) (l : Listener)
    → l.is_running ≡ false
    → process_messages s msgs l ≡ l
unfolding process_messages process_message
process_messages-ended s [] l r = refl
process_messages-ended s (msg ∷ msgs) l r =
    let l' = after_handling s msg.request_id (handle_message s msg l.disk) l in
    let same = if-false l.is_running l' l r in
    ap (λ m. process_messages s msgs m) same ∙ process_messages-ended s msgs l r

-- The confirmed_ids that the messages of the hccm topic ask to be confirmed, in order.
abbrev pub asked : List Message → List (Option Text)
asked msgs = map (λ msg. msg.request_id) (select (λ msg. msg.is_hccm) msgs)

abbrev pub confirmed_ids : List (Text × Status) → List (Option Text)
confirmed_ids confirmed = map (λ c. some c.0) confirmed

-- The confirmations that are new, one for each message that asks, in order, up to where the task ends.
pub record Confirms (wanted : List (Option Text)) (l l' : Listener) : Type 0 where
  pub new : List (Text × Status)
  pub left_out : List (Option Text)
  pub in_order : wanted ≡ confirmed_ids new ++ left_out
  pub confirmed : l'.confirmed ≡ l.confirmed ++ new
  pub none_left : (left_out ≡ []) ⊎ (l'.is_running ≡ false)

ended-Confirms :
    (s : Services) (msgs : List Message) (wanted : List (Option Text)) (l l' : Listener)
    → l'.confirmed ≡ l.confirmed
    → l'.is_running ≡ false
    → Confirms wanted l (process_messages s msgs l')
ended-Confirms s msgs wanted l l' e r =
    subst (Confirms wanted l) (sym (process_messages-ended s msgs l' r)) (record {
      new = [];
      left_out = wanted;
      in_order = refl;
      confirmed = e ∙ sym (append-nil l.confirmed);
      none_left = inr r;
    })

answered-Confirms :
    (wanted : List (Option Text)) (request_id : Text) (status : Status) (l l' out : Listener)
    → l'.confirmed ≡ l.confirmed ++ (request_id, status) ∷ []
    → Confirms wanted l' out
    → Confirms (some request_id ∷ wanted) l out
answered-Confirms wanted request_id status l l' out e c = record {
  new = (request_id, status) ∷ c.new;
  left_out = c.left_out;
  in_order = ap (λ rest. some request_id ∷ rest) c.in_order;
  confirmed =
      c.confirmed
      ∙ (ap (λ old. old ++ c.new) e ∙ append_assoc l.confirmed ((request_id, status) ∷ []) c.new);
  none_left = c.none_left;
}

asked-hccm :
    (msg : Message) (msgs : List Message)
    → msg.is_hccm ≡ true
    → asked (msg ∷ msgs) ≡ msg.request_id ∷ asked msgs
asked-hccm msg msgs e =
    ap (map (λ m. m.request_id))
      (if-true msg.is_hccm (msg ∷ select (λ m. m.is_hccm) msgs) (select (λ m. m.is_hccm) msgs) e)

asked-other :
    (msg : Message) (msgs : List Message) → msg.is_hccm ≡ false → asked (msg ∷ msgs) ≡ asked msgs
asked-other msg msgs e =
    ap (map (λ m. m.request_id))
      (if-false msg.is_hccm (msg ∷ select (λ m. m.is_hccm) msgs) (select (λ m. m.is_hccm) msgs) e)

-- The task confirms the messages of its topic one by one in their order, each once, until it ends; a
-- task that still runs after the messages has confirmed them all.
pub process_messages-Confirms :
    (s : Services) (msgs : List Message) (l : Listener)
    → l.is_running ≡ true
    → Confirms (asked msgs) l (process_messages s msgs l)
unfolding process_messages
process_messages-Confirms s [] l r = record {
  new = [];
  left_out = [];
  in_order = refl;
  confirmed = sym (append-nil l.confirmed);
  none_left = inl refl;
}
process_messages-Confirms s (msg ∷ msgs) l r =
    let l' = process_message s msg l in
    elim (process_message-Turn s msg l r) [
      | skipped other e r' ↦
          let c = process_messages-Confirms s msgs l' r' in
          record {
            new = c.new;
            left_out = c.left_out;
            in_order = asked-other msg msgs other ∙ c.in_order;
            confirmed = c.confirmed ∙ ap (λ old. old ++ c.new) e;
            none_left = c.none_left;
          }
      | answered request_id status is_hccm wants e r' ↦
          let wanted = asked-hccm msg msgs is_hccm ∙ ap (λ id. id ∷ asked msgs) wants in
          subst (λ w. Confirms w l (process_messages s msgs l')) (sym wanted)
            (answered-Confirms (asked msgs) request_id status l l' (process_messages s msgs l') e
              (process_messages-Confirms s msgs l' r'))
      | ended e r' ↦ ended-Confirms s msgs (asked (msg ∷ msgs)) l l' e r'
    ]
