-- ===== src/Billing/Checkout/Settles.antt =====
-- What a return from the checkout can do: nothing, unless the checkout is paid and the buyer's own.
use email_summary.Prelude.{
  String, ◌≡◌, refl, sym, ap, ◌∙◌, subst, Bool, true, false, Option, none, some, eq_iff, arith, inl,
  inr, Option-cases, Bool-cases,
}
use email_summary.Prelude.Text.{norm}
use email_summary.Accounts.Store.{
  Result, ok, err, invalid_data, limit_reached, no_account, assertion, Result-cases, Entry, State,
  entries_of, or_text, find_entry, edit_first, set_polar_customer_id, open_manifest, entry_for,
}
use email_summary.Accounts.Lookup.{Account, account_from_entry}
use email_summary.Accounts.Keeps.{find_entry-edit_first, find_entry-is_entry}
use email_summary.Billing.Polar.{Data, Polar, valid_id, customer_of}
use email_summary.Billing.Resolve.{resolve_account}
use email_summary.Billing.Events.{Outcome, apply_plan}
use email_summary.Billing.Events.Effect.{plan_at, apply_plan_settles}
use email_summary.Billing.Checkout.{
  Confirmed, paid, is_paid, needs_link, link_customer, settle, settle_linked, settle_checkout,
  confirm_body, read_checkout, confirm_checkout,
}

abbrev pub is_settled : Confirmed → Bool
is_settled (paid outcome) = true
is_settled _ = false

abbrev relink : String → Entry → Entry
relink cid e = record e { polar_customer_id = some cid }

abbrev state_of {ℓ} : {A : Type ℓ} → State → Result (A × State) → State
state_of s (ok r) = r.1
state_of s (err e) = s

settle_paid :
    (acct : Account) (c : Confirmed) (s s' : State)
    → settle acct s ≡ ok (c, s')
    → (outcome : Outcome) × (c ≡ paid outcome) × (apply_plan acct "active" s ≡ ok (outcome, s'))
unfolding settle
settle_paid acct c s s' h = elim (Result-cases (apply_plan acct "active" s)) [
  | inl (x, failed) ↦ absurd (ground arith)
  | inr ((outcome, s1), done) ↦ (outcome, ground arith, ground arith)
]

link_customer-some :
    (account_id cid : String) (s : State) (r : Entry × State)
    → link_customer account_id cid s ≡ ok (some r)
    → set_polar_customer_id account_id cid s ≡ ok r
unfolding link_customer
link_customer-some account_id cid s r h =
    elim (Result-cases (set_polar_customer_id account_id cid s)) [
      | inl (invalid_data, failed) ↦ absurd (ground arith)
      | inl (limit_reached, failed) ↦ absurd (ground arith)
      | inl (no_account, failed) ↦ absurd (ground arith)
      | inl (assertion, failed) ↦ absurd (ground arith)
      | inr (q, done) ↦ ground arith
    ]

-- The entry that the link returns is the one that the store then has.
link_parts :
    (account_id cid : String) (s s' : State) (e : Entry)
    → set_polar_customer_id account_id cid s ≡ ok (e, s')
    → (norm e.id ≡ norm account_id)
      × (plan_at account_id s' ≡ some (or_text e.plan_status "active"))
unfolding set_polar_customer_id open_manifest entry_for
link_parts account_id cid s s' e h = elim (Option-cases s.manifest) [
  | inl missing ↦ absurd (ground arith)
  | inr (entries, there) ↦ elim (Option-cases (find_entry (norm account_id) entries)) [
    | inl nobody ↦ absurd (ground arith)
    | inr (own, found) ↦
        let now : s'.manifest ≡ some (edit_first (norm account_id) (relink cid) entries) =
          ground arith in
        let same : e ≡ relink cid own = ground arith in
        let hit = find_entry-is_entry (norm account_id) entries own found in
        let moved =
          find_entry-edit_first (relink cid) (λ x. refl) (norm account_id) (norm account_id)
            entries in
        (
          ground (arith, eq_iff (norm own.id) (norm account_id)),
          rw (now, entries_of, moved, found, same)
              (ground (arith, eq_iff (norm account_id) (norm account_id))),
        )
  ]
]

settle_active :
    (acct : Account) (c : Confirmed) (s s' : State)
    → settle acct s ≡ ok (c, s')
    → plan_at acct.id s ≡ some acct.plan_status
    → plan_at acct.id s' ≡ some "active"
settle_active acct c s s' h there =
    let (outcome, same, done) = settle_paid acct c s s' h in
    let (o, s1, settled, now, others) = apply_plan_settles acct "active" s refl there in
    let agree : s1 ≡ s' = ap (state_of s) (sym settled ∙ done) in
    subst (λ x. plan_at acct.id x ≡ some "active") agree now

settle_linked_active :
    (bot : Option String) (acct : Account) (e : Entry) (c : Confirmed) (cid : String)
    (s s1 s' : State)
    → set_polar_customer_id acct.id cid s ≡ ok (e, s1)
    → settle (account_from_entry bot e) s1 ≡ ok (c, s')
    → plan_at acct.id s' ≡ some "active"
unfolding account_from_entry
settle_linked_active bot acct e c cid s s1 s' linked h =
    let (same, plan) = link_parts acct.id cid s s1 e linked in
    let at : plan_at e.id s1 ≡ some (or_text e.plan_status "active") = rw same plan in
    let now : plan_at e.id s' ≡ some "active" =
      settle_active (account_from_entry bot e) c s1 s' h at in
    rw same at now

-- Settling that does not end as paid changes nothing.
settle_checkout_refused :
    (bot : Option String) (acct : Account) (body : Data) (c : Confirmed) (s s' : State)
    → settle_checkout bot acct body s ≡ ok (c, s')
    → is_settled c ≡ false
    → s' ≡ s
unfolding settle_checkout settle_linked
settle_checkout_refused bot acct body c s s' h refused = elim (Bool-cases (is_paid body.status)) [
  | inr unpaid ↦ ground arith
  | inl is_paid_one ↦ elim (Bool-cases (needs_link (customer_of body) acct)) [
    | inr linked ↦
        let (outcome, same, done) = settle_paid acct c s s' (ground arith) in absurd (ground arith)
    | inl unlinked ↦ elim (Result-cases (link_customer acct.id (or_text (customer_of body) "") s)) [
      | inl (x, failed) ↦ absurd (ground arith)
      | inr (none, taken) ↦ ground arith
      | inr (some (e, s1), linked) ↦
          let (outcome, same, done) =
            settle_paid (account_from_entry bot e) c s1 s' (ground arith) in
          absurd (ground arith)
    ]
  ]
]

-- A return from the checkout that does not settle leaves the accounts as they were.
pub confirm_refused_changes_nothing :
    (polar : Polar) (bot checkout_id : Option String) (acct : Account) (c : Confirmed)
    (s s' : State)
    → confirm_checkout polar bot checkout_id acct s ≡ ok (c, s')
    → is_settled c ≡ false
    → s' ≡ s
unfolding confirm_checkout read_checkout confirm_body
confirm_refused_changes_nothing polar bot none acct c s s' h refused = ground arith
confirm_refused_changes_nothing polar bot (some id) acct c s s' h refused =
    elim (Option-cases (polar.get_checkout id)) [
      | inl unread ↦ ground arith
      | inr (body, read) ↦ elim (Result-cases (resolve_account polar bot body s)) [
        | inl (x, failed) ↦ ground arith
        | inr (owner, found) ↦ ground (arith, settle_checkout_refused bot acct body c s s')
      ]
    ]

-- What a return that settles went through.
confirm_parts :
    (polar : Polar) (bot checkout_id : Option String) (acct : Account) (outcome : Outcome)
    (s s' : State)
    → confirm_checkout polar bot checkout_id acct s ≡ ok (paid outcome, s')
    → (id : String) × (body : Data) × (owner : Account) × (checkout_id ≡ some id)
      × (valid_id id ≡ true)
      × (polar.get_checkout id ≡ some body)
      × (resolve_account polar bot body s ≡ ok (some owner))
      × (owner.id ≡ acct.id)
      × (settle_checkout bot acct body s ≡ ok (paid outcome, s'))
unfolding confirm_checkout read_checkout confirm_body
confirm_parts polar bot none acct outcome s s' h = cc
confirm_parts polar bot (some id) acct outcome s s' h =
    elim (Option-cases (polar.get_checkout id)) [
      | inl unread ↦ absurd (ground arith)
      | inr (body, read) ↦ elim (Result-cases (resolve_account polar bot body s)) [
        | inl (x, failed) ↦ absurd (ground arith)
        | inr (none, found) ↦ absurd (ground arith)
        | inr (some owner, found) ↦ (
          id,
          body,
          owner,
          refl,
          ground arith,
          read,
          found,
          ground (arith, eq_iff owner.id acct.id),
          ground arith,
        )
      ]
    ]

settle_checkout_paid :
    (bot : Option String) (acct : Account) (body : Data) (outcome : Outcome) (s s' : State)
    → settle_checkout bot acct body s ≡ ok (paid outcome, s')
    → plan_at acct.id s ≡ some acct.plan_status
    → (is_paid body.status ≡ true) × (plan_at acct.id s' ≡ some "active")
unfolding settle_checkout settle_linked
settle_checkout_paid bot acct body outcome s s' h there = elim (Bool-cases (is_paid body.status)) [
  | inr unpaid ↦ absurd (ground arith)
  | inl is_paid_one ↦ elim (Bool-cases (needs_link (customer_of body) acct)) [
    | inr linked ↦ (is_paid_one, settle_active acct (paid outcome) s s' (ground arith) there)
    | inl unlinked ↦ elim (Result-cases (link_customer acct.id (or_text (customer_of body) "") s)) [
      | inl (x, failed) ↦ absurd (ground arith)
      | inr (none, taken) ↦ absurd (ground arith)
      | inr (some (e, s1), linked) ↦ (
        is_paid_one,
        settle_linked_active bot acct e (paid outcome) (or_text (customer_of body) "") s s1 s'
            (link_customer-some acct.id (or_text (customer_of body) "") s (e, s1) linked)
            (ground arith),
      )
    ]
  ]
]

-- A return from the checkout that settles had a valid id, whose checkout Polar knows, has as paid,
-- and which resolves to the buyer's account; afterwards the store gives that account an active
-- plan, if before it had the plan that the caller read.
pub confirm_paid :
    (polar : Polar) (bot checkout_id : Option String) (acct : Account) (outcome : Outcome)
    (s s' : State)
    → plan_at acct.id s ≡ some acct.plan_status
    → confirm_checkout polar bot checkout_id acct s ≡ ok (paid outcome, s')
    → (id : String) × (body : Data) × (owner : Account) × (checkout_id ≡ some id)
      × (valid_id id ≡ true)
      × (polar.get_checkout id ≡ some body)
      × (is_paid body.status ≡ true)
      × (resolve_account polar bot body s ≡ ok (some owner))
      × (owner.id ≡ acct.id)
      × (plan_at acct.id s' ≡ some "active")
confirm_paid polar bot checkout_id acct outcome s s' there h =
    let (id, body, owner, given_id, valid, read, found, own, settled) =
      confirm_parts polar bot checkout_id acct outcome s s' h in
    let (is_paid_one, now) = settle_checkout_paid bot acct body outcome s s' settled there in
    (id, body, owner, given_id, valid, read, is_paid_one, found, own, now)
