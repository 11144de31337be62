-- ===== src/Orchestrator/Prepare.antt =====
-- Which accounts `prepare` queues for download.
use mathlib.Core.List.{append-nil, append_assoc}
use mathlib.Core.Path.{subst}
use masu.Prelude.{
  ◌≡◌, refl, sym, ap, ◌∙◌, String, Bool, true, false, ◌&&◌, ◌||◌, not, any, is_some, Option, none,
  some, List, [], ◌∷◌, ◌++◌, arith, select, contains, lookup, insert, lookup-insert, string_eq,
  Bool-cases, inl, inr, if◌then◌else◌,
}
use masu.Tables.Clean.{Text}
use masu.Orchestrator.Labels.{Aliases, get_label_details, has_label, get_label_details-has_label}
use masu.Provider.Status.{ProviderStatus, ready, opened, open_status}
use masu.Orchestrator.{
  Account, Run, World, Outcome, returned, raised, prepare, visit, ready_to_poll, labelled,
  aliases_of, go_on, opened_or_raised,
}

-- The status that a provider has, or gets when it is first looked at.
pub status_of : World → List (String × ProviderStatus) → String → ProviderStatus
status_of world statuses uuid = elim (lookup uuid statuses) [
  | none ↦ record { status = ready; timestamp = world.today; retries = 0; last_message = "none" }
  | some status ↦ status
]

abbrev pub is_known : World → Account → Bool
is_known world account = contains world.providers account.provider_uuid

-- Whether an account's provider may be downloaded now.
abbrev pub polls : World → List (String × ProviderStatus) → Account → Bool
polls world statuses account =
    ready_to_poll world account (status_of world statuses account.provider_uuid)

open_known :
    (world : World) (account : Account) (run : Run)
    → is_known world account ≡ true
    → open_status
        (contains world.providers account.provider_uuid)
        (lookup account.provider_uuid run.statuses)
        world.today
      ≡ opened (status_of world run.statuses account.provider_uuid)
unfolding status_of open_status
open_known world account run h = ground arith

-- Looking at a provider changes no provider's status.
status_of-insert :
    (world : World) (statuses : List (String × ProviderStatus)) (uuid j : String)
    → status_of world (insert uuid (status_of world statuses uuid) statuses) j
      ≡ status_of world statuses j
unfolding status_of
status_of-insert world statuses uuid j =
    ground (
      arith,
      lookup-insert j uuid (status_of world statuses uuid) statuses,
      string_eq.beq_iff j uuid,
    )

-- Whether the loop ends at an account: its provider is unknown, or it is queued and its labels raise.
abbrev pub fails : World → (Account → Bool) → Account → Bool
fails world polled account =
    not (is_known world account)
    || polled account
      && not (has_label world.assume_role account.provider_type account.authentication)

-- The elements up to the first that passes a test, and this one.
pub through : (Account → Bool) → List Account → List Account
through test [] = []
through test (a ∷ accounts) = a ∷ (if test a then [] else through test accounts)

-- What `prepare` does: it raises if the loop ends at an account, and of the accounts up to there it
-- queues those that have a known provider and are polled.
pub record Prepared (world : World) (polled : Account → Bool) (accounts : List Account) (run : Run)
    : Type 0 where
  pub outcome :
      (prepare world accounts run).0
      ≡ (if any (fails world polled) accounts then raised else returned)
  pub queue :
      (prepare world accounts run).1.queued
      ≡ run.queued
        ++ select (λ a. is_known world a && polled a) (through (fails world polled) accounts)

if-not : (b : Bool) → (if b then returned else raised) ≡ (if not b then raised else returned)
if-not true = refl
if-not false = refl

labelled-run :
    (schema_name : String) (run : Run) (out : Option (Option (Text × Option Text) × Aliases))
    → ((labelled schema_name run out).0 ≡ (if is_some out then returned else raised))
      × ((labelled schema_name run out).1.queued ≡ run.queued)
      × ((labelled schema_name run out).1.statuses ≡ run.statuses)
labelled-run schema_name run none = (refl, refl, refl)
labelled-run schema_name run (some out) = (refl, refl, refl)

visit-run :
    (world : World) (account : Account) (status : ProviderStatus) (run : Run)
    → let ready = ready_to_poll world account status in
      let labels = has_label world.assume_role account.provider_type account.authentication in
      ((visit world account status run).0 ≡ (if ready && not labels then raised else returned))
      × ((visit world account status run).1.queued
          ≡ run.queued ++ (if ready then account ∷ [] else []))
      × ((visit world account status run).1.statuses
          ≡ insert account.provider_uuid status run.statuses)
unfolding visit
visit-run world account status run = elim (Bool-cases (ready_to_poll world account status)) [
  | inr e ↦ rw e (refl, sym (append-nil run.queued), refl)
  | inl e ↦
      let seen : Run = record run {
        statuses = insert account.provider_uuid status run.statuses;
        queued = run.queued ++ account ∷ [];
      } in
      let aliases = aliases_of (lookup account.schema_name run.aliases) in
      let (o, q, s) = labelled-run account.schema_name seen (
        get_label_details world.assume_role account.provider_type account.authentication aliases) in
      let returns =
        get_label_details-has_label world.assume_role account.provider_type account.authentication
          aliases in
      rw e (o ∙ rw returns (if-not _), q, s)
]

go_on-raised :
    (out : Outcome × Run) (rest : Run → Outcome × Run)
    → out.0 ≡ raised
    → go_on out rest ≡ (raised, out.1)
unfolding go_on
go_on-raised (raised, run) rest h = refl
go_on-raised (returned, run) rest h = cc

go_on-returned :
    (out : Outcome × Run) (rest : Run → Outcome × Run)
    → out.0 ≡ returned
    → go_on out rest ≡ rest out.1
unfolding go_on
go_on-returned (raised, run) rest h = cc
go_on-returned (returned, run) rest h = refl

-- The accounts behind a visited one are judged as before.
polls-visit :
    (world : World) (account : Account) (run : Run)
    → let status = status_of world run.statuses account.provider_uuid in
      polls world (visit world account status run).1.statuses ≡ polls world run.statuses
polls-visit world account run =
    let status = status_of world run.statuses account.provider_uuid in
    let (_, _, s) = visit-run world account status run in
    rw s (λ i b.
      ready_to_poll world b
        (status_of-insert world run.statuses account.provider_uuid b.provider_uuid i))

Prepared-unknown :
    (world : World) (polled : Account → Bool) (a : Account) (accounts : List Account) (run : Run)
    → is_known world a ≡ false
    → Prepared world polled (a ∷ accounts) run
unfolding prepare through opened_or_raised open_status
Prepared-unknown world polled a accounts run h = record {
  outcome = rw h refl;
  queue = rw h (sym (append-nil run.queued));
}

select-cons :
    (keep : Account → Bool) (a : Account) (accounts : List Account)
    → (if keep a then a ∷ [] else []) ++ select keep accounts ≡ select keep (a ∷ accounts)
select-cons keep a accounts = elim (Bool-cases (keep a)) [ inl e ↦ rw e | inr e ↦ rw e ]

Prepared-cons :
    (world : World) (a : Account) (accounts : List Account) (run : Run)
    → let polled = polls world run.statuses in
      is_known world a ≡ true
      → Prepared world polled accounts
          (visit world a (status_of world run.statuses a.provider_uuid) run).1
      → Prepared world polled (a ∷ accounts) run
unfolding prepare through
Prepared-cons world a accounts run h ih =
    let polled = polls world run.statuses in
    let keep : Account → Bool = λ b. is_known world b && polled b in
    let test = fails world polled in
    let out = visit world a (status_of world run.statuses a.provider_uuid) run in
    let taken = if polled a then a ∷ [] else [] in
    let tail = if test a then [] else through test accounts in
    let (o, q, _) = visit-run world a (status_of world run.statuses a.provider_uuid) run in
    let step : taken ++ select keep tail ≡ select keep (a ∷ tail) =
      ap (λ b. (if b && polled a then a ∷ [] else []) ++ select keep tail) (sym h)
      ∙ select-cons keep a tail in
    let opens = open_known world a run h in
    elim (Bool-cases (test a)) [
      | inl stop ↦
          let e : prepare world (a ∷ accounts) run ≡ (raised, out.1) =
            rw opens (go_on-raised out (prepare world accounts) (o ∙ rw (rw h at stop) refl)) in
          record {
            outcome = ap (λ (x : Outcome × Run). x.0) e ∙ rw stop refl;
            queue =
                ap (λ (x : Outcome × Run). x.1.queued) e
                ∙ q
                ∙ ap (λ l. run.queued ++ l)
                    (sym (append-nil taken)
                      ∙ ap
                          (λ (b : Bool).
                            taken ++ select keep (if b then [] else through test accounts))
                          (sym stop)
                      ∙ step);
          }
      | inr on ↦
          let e : prepare world (a ∷ accounts) run ≡ prepare world accounts out.1 =
            rw opens (go_on-returned out (prepare world accounts) (o ∙ rw (rw h at on) refl)) in
          record {
            outcome = ap (λ (x : Outcome × Run). x.0) e ∙ ih.outcome ∙ rw on refl;
            queue =
                ap (λ (x : Outcome × Run). x.1.queued) e
                ∙ ih.queue
                ∙ ap (λ l. l ++ select keep (through test accounts)) q
                ∙ append_assoc run.queued taken _
                ∙ ap (λ l. run.queued ++ l)
                    (ap
                        (λ (b : Bool).
                          taken ++ select keep (if b then [] else through test accounts))
                        (sym on)
                      ∙ step);
          }
    ]

-- `prepare` raises exactly if, in the order of the accounts, it comes to one whose provider is unknown,
-- or to an AWS account that is valid, not backing off, and whose role is refused or has an ARN without
-- a colon. Of the accounts up to the first such one, it queues exactly those with a known provider
-- whose status is valid and not backing off before the run, in their order, and none behind it.
pub prepare_queue :
    (world : World) (accounts : List Account) (run : Run)
    → Prepared world (polls world run.statuses) accounts run
unfolding prepare through
prepare_queue world [] run = record { outcome = refl; queue = sym (append-nil run.queued) }
prepare_queue world (a ∷ accounts) run =
    let polled = polls world run.statuses in
    elim (Bool-cases (is_known world a)) [
      | inr e ↦ Prepared-unknown world polled a accounts run e
      | inl e ↦
          let after = (visit world a (status_of world run.statuses a.provider_uuid) run).1 in
          Prepared-cons world a accounts run e (
            subst (λ p. Prepared world p accounts after) (polls-visit world a run)
              (prepare_queue world accounts after))
    ]
