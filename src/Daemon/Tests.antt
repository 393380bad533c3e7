-- ===== src/Daemon/Tests.antt =====
-- Runs of the two spools on the sample store.
use email_summary.Prelude.{
  ◌+◌, String, ◌≡◌, refl, false, Option, none, some, List, [], ◌∷◌, str_eq, length, some_pass,
  arith,
}
use email_summary.Prelude.Text.{norm, lower}
use email_summary.Prelude.Sets.{is_member, HasNoRepeats}
use email_summary.Accounts.Samples.{bob, store}
use email_summary.Accounts.Store.{ok}
use email_summary.Accounts.Lookup.{
  account_from_entry, telegram_from_entry, get_account, load_accounts, all_accounts, match_address,
}
use email_summary.Billing.Polar.{Polar}
use email_summary.Billing.Events.{Event}
use email_summary.Daemon.BillingQueue.{Desk, process_billing, drained}
use email_summary.Daemon.BillingQueue.Retries.{
  passes, passes_empty_spool, process_billing_loses_nothing,
}
use email_summary.Daemon.WakeQueue.{Woken, wake_drain, process_accounts}
use email_summary.Daemon.WakeQueue.Drained.{wakes_for, wake_drain_coalesces}

-- An API that answers nothing.
abbrev silent : Polar
silent = record {
  get_customer = λ c. none;
  get_checkout = λ c. none;
  list_subscriptions = λ n. none;
  create_customer_session = λ c. none;
}

-- The customer is no id, so the request for its email raises.
abbrev raising : Event
raising = record {
  type_name = some "order.paid";
  data_of = record {
    account_stamp = none;
    customer_id = some "a/b";
    customer_obj_id = none;
    customer_obj_email = none;
    customer_email = none;
    user_email = none;
    status = none;
  };
}

abbrev desk : Desk
desk = record {
  spool =
      record { event = some raising; attempts = some 4 }
      ∷ record { event = some raising; attempts = some 0 }
      ∷ record { event = none; attempts = none }
      ∷ [];
  accounts = store;
  results = [];
  alerts = [];
}

process_billing_loses_nothing_example :
    length (process_billing (some silent) none desk).spool
      + length (process_billing (some silent) none desk).results
      + length (process_billing (some silent) none desk).alerts
    ≡ length (drained desk.spool) + 0 + 0
process_billing_loses_nothing_example = process_billing_loses_nothing silent none desk

abbrev polars : List (Option Polar)
polars = some silent ∷ none ∷ some silent ∷ some silent ∷ some silent ∷ some silent ∷ []

passes_empty_spool_example :
    ((passes polars none desk).spool ≡ [])
    × (length (passes polars none desk).results + length (passes polars none desk).alerts
        ≡ length (drained desk.spool) + 0 + 0)
passes_empty_spool_example = passes_empty_spool polars none desk (omega arith)

abbrev woken : List Woken
woken =
    record { email = some "bob@example.org"; account_id = none }
    ∷ record { email = none; account_id = some "nobody@example.org" }
    ∷ record { email = some "bob@example.org"; account_id = none }
    ∷ []

wake_drain_coalesces_example :
    HasNoRepeats (wake_drain woken)
    × ((u : String)
        → str_eq u "" ≡ false
        → is_member u (wake_drain woken) ≡ some_pass (wakes_for u) woken)
wake_drain_coalesces_example = wake_drain_coalesces woken

runs_bob : process_accounts none (wake_drain woken) store ≡ ok (account_from_entry none bob ∷ [])
unfolding process_accounts wake_drain get_account load_accounts all_accounts match_address
    account_from_entry telegram_from_entry norm lower
runs_bob = refl
