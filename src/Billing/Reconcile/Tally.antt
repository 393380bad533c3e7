-- ===== src/Billing/Reconcile/Tally.antt =====
-- The counters of a sweep.
use email_summary.Prelude.{
  ℕ, suc, ◌+◌, String, ◌≡◌, ap, Bool, Option, none, some, [], ◌∷◌, length, str_eq, arith, inl, inr,
  Bool-cases, Option-cases,
}
use email_summary.Accounts.Store.{err, ok, Result-cases, State, set_plan_status}
use email_summary.Accounts.Lookup.{Account}
use email_summary.Accounts.Keeps.{set_plan_status_log}
use email_summary.Billing.Polar.{Polar}
use email_summary.Billing.Resolve.{resolve_account}
use email_summary.Billing.Reconcile.{
  Entitlements, Totals, no_totals, customer_data, target_of, settle_customer, sweep_customers,
  entitlement_by_customer, reconcile,
}

abbrev pub counted : Totals → ℕ
counted t = t.activated + t.deactivated + t.skipped + t.unmatched

abbrev pub changed : Totals → ℕ
changed t = t.activated + t.deactivated

settle_customer_counts :
    (acct : Option Account) (entitled : Bool) (t t' : Totals) (s s' : State)
    → settle_customer acct entitled t s ≡ ok (t', s')
    → (counted t' ≡ suc (counted t)) × (length s'.log + changed t ≡ length s.log + changed t')
unfolding settle_customer
settle_customer_counts none entitled t t' s s' h = (ground arith, ground arith)
settle_customer_counts (some acct) entitled t t' s s' h =
    elim (Bool-cases (str_eq acct.plan_status (target_of entitled))) [
      | inl same ↦ (ground arith, ground arith)
      | inr other ↦ elim (Result-cases (set_plan_status acct.id (target_of entitled) s)) [
        | inl (e, failed) ↦ absurd (ground arith)
        | inr ((prior, s1), done) ↦
            let grew = set_plan_status_log acct.id (target_of entitled) s s1 prior done in
            (ground arith, ground arith)
      ]
    ]

sweep_customers_counts :
    (polar : Polar) (bot : Option String) (es : Entitlements) (t t' : Totals) (s s' : State)
    → sweep_customers polar bot es t s ≡ (ok t', s')
    → (counted t' ≡ length es + counted t) × (length s'.log + changed t ≡ length s.log + changed t')
unfolding sweep_customers
sweep_customers_counts polar bot [] t t' s s' h = (ground arith, ground arith)
sweep_customers_counts polar bot (e ∷ es) t t' s s' h =
    elim (Result-cases (resolve_account polar bot (customer_data (e.0)) s)) [
      | inl (x, failed) ↦ absurd (ground arith)
      | inr (acct, found) ↦ elim (Result-cases (settle_customer acct (e.1) t s)) [
        | inl (x, failed) ↦ absurd (ground arith)
        | inr ((t1, s1), done) ↦
            let one = settle_customer_counts acct (e.1) t t1 s s1 done in
            let rest = sweep_customers_counts polar bot es t1 t' s1 s' (ground arith) in
            (ground arith, ground arith)
      ]
    ]

-- A sweep that returns has counted every customer in exactly one of its four counters, and has
-- written one audit row for each plan it changed.
pub reconcile_counts :
    (fuel customers : ℕ) (polar : Polar) (bot : Option String) (t : Totals) (s s' : State)
    → reconcile fuel polar bot s ≡ some (ok (customers, t), s')
    → (t.activated + t.deactivated + t.skipped + t.unmatched ≡ customers)
      × (length s'.log ≡ length s.log + (t.activated + t.deactivated))
unfolding reconcile
reconcile_counts fuel customers polar bot t s s' h =
    elim (Option-cases (entitlement_by_customer fuel polar)) [
      | inl unread ↦ absurd (ground arith)
      | inr (err x, read) ↦ absurd (ground arith)
      | inr (ok es, read) ↦
          let swept = sweep_customers polar bot es no_totals s in
          elim (Result-cases swept.0) [
            | inl (x, failed) ↦ absurd (ground arith)
            | inr (t1, done) ↦
                let counts =
                  sweep_customers_counts polar bot es no_totals t1 s swept.1
                    (ap (λ r. (r, swept.1)) done) in
                (ground arith, ground arith)
          ]
    ]
