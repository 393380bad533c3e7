-- ===== src/Billing/Tests.antt =====
-- Runs of the billing side on the sample store.
use email_summary.Prelude.{
  ℕ, String, ◌≡◌, refl, true, false, ◌||◌, none, some, [], ◌∷◌, arith, str_eq, if◌then◌else◌,
  some_pass,
}
use email_summary.Prelude.Text.{norm, strip, lower}
use email_summary.Accounts.Samples.{ada, bob, store, got}
use email_summary.Accounts.Store.{
  ok, State, same_text, set_plan_status, set_polar_customer_id, open_manifest, entry_for,
}
use email_summary.Accounts.Lookup.{
  Account, account_from_entry, telegram_from_entry, account_for_email, account_for_customer_id,
  all_accounts, match_address,
}
use email_summary.Billing.Polar.{Data, Polar, Page, valid_id}
use email_summary.Billing.Resolve.{
  stamped_account, by_customer, by_email, email_of, fetched_email, resolve_unstamped,
  resolve_account,
}
use email_summary.Billing.Resolve.Links.{resolve_unstamped_keeps_links}
use email_summary.Billing.Events.{Outcome, already, Event, apply_event, apply_plan, event_target}
use email_summary.Billing.Events.Effect.{plan_at, KeepsOthers, apply_event_settles}
use email_summary.Billing.Checkout.{
  paid, not_paid, confirm_checkout, Confirmed, is_paid, confirm_body, read_checkout,
  settle_checkout, link_customer, settle_linked, settle,
}
use email_summary.Billing.Checkout.Settles.{is_settled, confirm_paid}
use email_summary.Billing.Reconcile.{
  Entitlements, Totals, reconcile, entitlement_by_customer, read_pages, sweep_customers,
  settle_customer,
}
use email_summary.Billing.Reconcile.Entitled.{
  is_entitled, grants_access, items_of, entitlement_by_customer_reads,
}

abbrev pages : ℕ → Page
pages n = record {
  items =
      record { customer_id = some "cust-1"; status = some "canceled" }
      ∷ record { customer_id = some "cust-2"; status = some "trialing" }
      ∷ [];
  max_page = 2;
}

abbrev checkout : String → Data
checkout status = record {
  account_stamp = some "bob@example.org";
  customer_id = some "cust-2";
  customer_obj_id = none;
  customer_obj_email = none;
  customer_email = none;
  user_email = none;
  status = some status;
}

-- An API with one paid checkout, one open one, and two pages of subscriptions.
abbrev api : Polar
api = record {
  get_customer = λ c. some (some "ada@example.net");
  get_checkout = λ c. some (checkout (if str_eq c "paid-1" then "succeeded" else "open"));
  list_subscriptions = λ n. some (pages n);
  create_customer_session = λ c. none;
}

abbrev buyer : Account
buyer = account_from_entry none bob

-- An event of Ada's customer, without a stamp.
abbrev canceled : Event
canceled = record {
  type_name = some "subscription.canceled";
  data_of = record (checkout "canceled") { account_stamp = none; customer_id = some " cust-1" };
}

abbrev owner : Account
owner = account_from_entry none ada

resolves_ada : resolve_account api none canceled.data_of store ≡ ok (some owner)
unfolding resolve_account resolve_unstamped stamped_account by_customer account_for_customer_id
    all_accounts account_from_entry telegram_from_entry strip
resolves_ada = refl

no_stamp : stamped_account none canceled.data_of store ≡ ok none
unfolding stamped_account
no_stamp = refl

resolve_unstamped_keeps_links_example :
    (same_text owner.polar_customer_id " cust-1"
      || same_text owner.polar_customer_id (strip " cust-1"))
    ≡ true
resolve_unstamped_keeps_links_example =
    resolve_unstamped_keeps_links api none canceled.data_of " cust-1" store owner no_stamp refl refl
      resolves_ada (unfold account_from_entry in refl)

asks_inactive : event_target canceled ≡ some "inactive"
unfolding event_target
asks_inactive = refl

ada_active : plan_at owner.id store ≡ some owner.plan_status
unfolding account_from_entry norm
ada_active = refl

apply_event_settles_example :
    (outcome : Outcome) × (s' : State) × (apply_event api none canceled store ≡ ok (outcome, s'))
    × (plan_at owner.id s' ≡ some "inactive")
    × KeepsOthers owner.id store s'
apply_event_settles_example =
    apply_event_settles api none canceled owner "inactive" store asks_inactive resolves_ada
      ada_active

abbrev opened : Confirmed × State
opened = got (not_paid, store) (confirm_checkout api none (some "open-1") buyer store)

opens : confirm_checkout api none (some "open-1") buyer store ≡ ok opened
unfolding confirm_checkout valid_id read_checkout confirm_body resolve_account stamped_account
    account_for_email all_accounts match_address norm account_from_entry telegram_from_entry lower
    settle_checkout
opens = refl

opened_refused : is_settled (opened.0) ≡ false
unfolding confirm_checkout valid_id read_checkout confirm_body resolve_account stamped_account
    account_for_email all_accounts match_address norm account_from_entry telegram_from_entry lower
    settle_checkout
opened_refused = refl

abbrev outcome : Outcome
outcome = already "bob@example.org" "active"

abbrev after_link : State
after_link = (got (bob, store) (set_polar_customer_id "bob@example.org" "cust-2" store)).1

pays : confirm_checkout api none (some "paid-1") buyer store ≡ ok (paid outcome, after_link)
unfolding confirm_checkout valid_id read_checkout confirm_body resolve_account stamped_account
    account_for_email all_accounts match_address norm account_from_entry telegram_from_entry lower
    settle_checkout link_customer settle_linked settle apply_plan set_polar_customer_id
    open_manifest entry_for
pays = refl

bob_active : plan_at buyer.id store ≡ some buyer.plan_status
unfolding account_from_entry norm
bob_active = refl

confirm_paid_example :
    (id : String) × (body : Data) × (found : Account) × (some "paid-1" ≡ some id)
    × (valid_id id ≡ true)
    × (api.get_checkout id ≡ some body)
    × (is_paid body.status ≡ true)
    × (resolve_account api none body store ≡ ok (some found))
    × (found.id ≡ buyer.id)
    × (plan_at buyer.id after_link ≡ some "active")
confirm_paid_example =
    confirm_paid api none (some "paid-1") buyer outcome store after_link bob_active pays

entitlement_by_customer_reads_example :
    (es : Entitlements) × (entitlement_by_customer 2 api ≡ some (ok es))
    × ((c : String)
        → str_eq c "" ≡ false
        → is_entitled c es ≡ some_pass (grants_access c) (items_of pages 2 1))
entitlement_by_customer_reads_example =
    entitlement_by_customer_reads api pages 2 (λ n. refl) (λ n. refl) (omega arith)

abbrev swept : Totals × State
swept = (
  record { activated = 0; deactivated = 1; skipped = 0; unmatched = 1 },
  (got ("", store) (set_plan_status "ada@example.org" "inactive" store)).1,
)

abbrev unanswering : Polar
unanswering = record api { get_customer = λ c. none }

sweeps : reconcile 2 unanswering none store ≡ some (ok (2, swept.0), swept.1)
unfolding reconcile entitlement_by_customer read_pages sweep_customers settle_customer
    resolve_account resolve_unstamped stamped_account by_customer account_for_customer_id
    all_accounts account_from_entry telegram_from_entry strip email_of fetched_email valid_id
    by_email set_plan_status open_manifest entry_for norm
sweeps = refl
