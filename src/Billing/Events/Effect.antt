-- ===== src/Billing/Events/Effect.antt =====
-- What an event does to the plan of the account it resolves to.
use mathlib.Core.Option
use email_summary.Prelude.{
  String, ◌≡◌, refl, ap, ◌∙◌, true, false, ◌||◌, Option, some, [], ◌∷◌, str_eq, eq_iff, arith, inl,
  inr, Option-cases, Bool-cases,
}
use email_summary.Prelude.Text.{norm}
use email_summary.Accounts.Store.{
  ok, Entry, State, plan_area, entries_of, or_text, find_entry, edit, entry_for, open_manifest,
  set_plan_status,
}
use email_summary.Accounts.Lookup.{Account}
use email_summary.Accounts.Keeps.{find_entry-edit_first}
use email_summary.Billing.Polar.{Polar}
use email_summary.Billing.Resolve.{resolve_account}
use email_summary.Billing.Events.{
  Outcome, already, flipped, apply_plan, apply_to, apply_event, Event, event_target,
}

-- The plan that the store gives an address.
abbrev pub plan_at : String → State → Option String
plan_at account_id s =
    Option.map (λ (e : Entry). or_text e.plan_status "active")
      (find_entry (norm account_id) (entries_of s))

abbrev pub KeepsOthers : String → State → State → Type 0
KeepsOthers account_id s s' =
    (other : String)
    → str_eq other (norm account_id) ≡ false
    → find_entry other (entries_of s') ≡ find_entry other (entries_of s)

abbrev plan : String → Entry → Entry
plan target e = record e { plan_status = some target }

pub set_plan_status_returns :
    (account_id target old : String) (s : State)
    → (str_eq target "active" || str_eq target "inactive") ≡ true
    → plan_at account_id s ≡ some old
    → (s' : State) × (set_plan_status account_id target s ≡ ok (old, s'))
      × (plan_at account_id s' ≡ some target)
      × KeepsOthers account_id s s'
unfolding set_plan_status open_manifest entry_for
set_plan_status_returns account_id target old s known there = elim (Option-cases s.manifest) [
  | inl missing ↦ absurd (ground arith)
  | inr (entries, present) ↦ elim (Option-cases (find_entry (norm account_id) entries)) [
    | inl nobody ↦ absurd (ground arith)
    | inr (e, found) ↦
        let same : or_text e.plan_status "active" ≡ old = ground arith in
        let opened : open_manifest false s ≡ ok entries = rw (present, open_manifest) refl in
        let the_entry : entry_for account_id entries ≡ ok e = rw (found, entry_for) refl in
        let moved = find_entry-edit_first (plan target) (λ x. refl) (norm account_id) in
        (
          record {
            manifest = some (edit account_id (plan target) entries);
            log =
                record { account = e.id; area = plan_area; outcome = target; fields = old ∷ [] }
                ∷ s.log;
          },
          rw (known, opened, the_entry, same) refl,
          rw (moved (norm account_id) entries, found)
              (ground (arith, eq_iff (norm account_id) (norm account_id))),
          (λ other d. rw (entries_of, present, moved other entries, d) refl),
        )
  ]
]

-- Setting a known plan for an account that the store has with that plan returns; afterwards the
-- store gives the account the plan asked for, and no other address has another entry.
pub apply_plan_settles :
    (acct : Account) (target : String) (s : State)
    → (str_eq target "active" || str_eq target "inactive") ≡ true
    → plan_at acct.id s ≡ some acct.plan_status
    → (outcome : Outcome) × (s' : State) × (apply_plan acct target s ≡ ok (outcome, s'))
      × (plan_at acct.id s' ≡ some target)
      × KeepsOthers acct.id s s'
unfolding apply_plan
apply_plan_settles acct target s known there = elim (Bool-cases (str_eq acct.plan_status target)) [
  | inl same ↦ (
    already acct.id target,
    s,
    rw (known, same) refl,
    there ∙ ap some ((eq_iff acct.plan_status target).0 same),
    (λ other d. refl),
  )
  | inr differs ↦
      let (s', done, now, others) =
        set_plan_status_returns acct.id target acct.plan_status s known there in
      (flipped acct.id acct.plan_status target, s', rw (known, differs, done) refl, now, others)
]

event_target_known :
    (e : Event) (target : String)
    → event_target e ≡ some target
    → (str_eq target "active" || str_eq target "inactive") ≡ true
unfolding event_target
event_target_known e target h = elim (Option-cases e.type_name) [
  | inl none_given ↦ absurd (ground arith)
  | inr (t, named) ↦ ground (arith, eq_iff target "active", eq_iff target "inactive")
]

-- An event that asks for a plan and resolves to an account that the store has returns; afterwards
-- the store gives the account that plan, and no other address has another entry.
pub apply_event_settles :
    (polar : Polar) (bot : Option String) (e : Event) (acct : Account) (target : String) (s : State)
    → event_target e ≡ some target
    → resolve_account polar bot e.data_of s ≡ ok (some acct)
    → plan_at acct.id s ≡ some acct.plan_status
    → (outcome : Outcome) × (s' : State) × (apply_event polar bot e s ≡ ok (outcome, s'))
      × (plan_at acct.id s' ≡ some target)
      × KeepsOthers acct.id s s'
unfolding apply_event apply_to
apply_event_settles polar bot e acct target s asks found there =
    let (outcome, s', done, now, others) =
      apply_plan_settles acct target s (event_target_known e target asks) there in
    (outcome, s', rw (apply_event, asks, found, apply_to) done, now, others)
