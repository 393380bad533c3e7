-- ===== src/Billing/Reconcile.antt =====
-- `PolarBilling.entitlement_by_customer` and `reconcile`.
pub mod Entitled
pub mod Tally
use email_summary.Prelude.{
  ℕ, zero, suc, ◌+◌, String, Bool, true, false, ◌||◌, Option, none, some, List, [], ◌∷◌, length,
  str_eq, if◌then◌else◌, leb, ◌==◌,
}
use email_summary.Accounts.Store.{Result, ok, err, ◌>>=◌, Error, assertion, State, set_plan_status}
use email_summary.Accounts.Lookup.{Account}
use email_summary.Billing.Polar.{Data, Polar, Page, Subscription, subscription_entitled}
use email_summary.Billing.Resolve.{resolve_account}

-- A `dict` from customer to entitled, in insertion order.
abbrev pub Entitlements : Type 0
Entitlements = List (String × Bool)

-- `entitled[cid] = entitled.get(cid, False) or ok`
abbrev pub mark : String → Bool → Entitlements → Entitlements
mark cid grants [] = (cid, grants) ∷ []
mark cid grants (e ∷ es) =
    if str_eq e.0 cid then (cid, e.1 || grants) ∷ es else e ∷ mark cid grants es

abbrev pub mark_subscription : Subscription → Entitlements → Entitlements
mark_subscription sub entitled = elim sub.customer_id [
  | none ↦ entitled
  | some cid ↦
      if str_eq cid "" then entitled else mark cid (subscription_entitled sub.status) entitled
]

abbrev pub mark_all : List Subscription → Entitlements → Entitlements
mark_all [] entitled = entitled
mark_all (sub ∷ subs) entitled = mark_all subs (mark_subscription sub entitled)

-- `pag.get("max_page") or 1`
abbrev pub last_page : Page → ℕ
last_page p = if p.max_page == 0 then 1 else p.max_page

-- The loop from `page` on; `none` where the fuel is used up. An answer that is no object, on which the
-- program raises too, counts as one that failed.
unfoldable pub read_pages : ℕ → Polar → ℕ → Entitlements → Option (Result Entitlements)
read_pages zero polar page entitled = none
read_pages (suc fuel) polar page entitled = elim (polar.list_subscriptions page) [
  | none ↦ some (err assertion)
  | some body ↦
      let rest = read_pages fuel polar (suc page) (mark_all body.items entitled) in
      if leb (last_page body) page then some (ok (mark_all body.items entitled)) else rest
]

unfoldable pub entitlement_by_customer : ℕ → Polar → Option (Result Entitlements)
entitlement_by_customer fuel polar = read_pages fuel polar 1 []

-- The counters of the sweep.
pub record Totals : Type 0 where
  pub activated : ℕ
  pub deactivated : ℕ
  pub skipped : ℕ
  pub unmatched : ℕ

abbrev pub no_totals : Totals
no_totals = record { activated = 0; deactivated = 0; skipped = 0; unmatched = 0 }

-- `{"customer_id": customer_id}`
abbrev pub customer_data : String → Data
customer_data cid = record {
  account_stamp = none;
  customer_id = some cid;
  customer_obj_id = none;
  customer_obj_email = none;
  customer_email = none;
  user_email = none;
  status = none;
}

abbrev pub target_of : Bool → String
target_of entitled = if entitled then "active" else "inactive"

-- One round of the loop.
unfoldable pub settle_customer : Option Account → Bool → Totals → State → Result (Totals × State)
settle_customer none entitled t s = ok (record t { unmatched = suc t.unmatched }, s)
settle_customer (some acct) entitled t s =
    let change = (do
      (prior, s') ← set_plan_status acct.id (target_of entitled) s
      ok (
        if entitled
            then record t { activated = suc t.activated }
            else record t { deactivated = suc t.deactivated },
        s',
      )) in
    if str_eq acct.plan_status (target_of entitled)
    then ok (record t { skipped = suc t.skipped }, s)
    else change

-- The loop; where a round raises, the accounts are as the rounds before it left them.
unfoldable pub sweep_customers :
    Polar → Option String → Entitlements → Totals → State → Result Totals × State
sweep_customers polar bot [] t s = (ok t, s)
sweep_customers polar bot (e ∷ es) t s = elim (resolve_account polar bot (customer_data (e.0)) s) [
  | err x ↦ (err x, s)
  | ok acct ↦ elim (settle_customer acct (e.1) t s) [
    | err x ↦ (err x, s)
    | ok p ↦ sweep_customers polar bot es (p.0) (p.1)
  ]
]

abbrev pub totals_of : ℕ → Result Totals → Result (ℕ × Totals)
totals_of customers (err x) = err x
totals_of customers (ok t) = ok (customers, t)

-- `reconcile`: the number of customers and the counters, and the accounts after it
unfoldable pub reconcile : ℕ → Polar → Option String → State → Option (Result (ℕ × Totals) × State)
reconcile fuel polar bot s = elim (entitlement_by_customer fuel polar) [
  | none ↦ none
  | some (err x) ↦ some (err x, s)
  | some (ok es) ↦
      let swept = sweep_customers polar bot es no_totals s in
      some (totals_of (length es) (swept.0), swept.1)
]
