-- ===== src/Accounts/Tests.antt =====
-- Runs of the account writers on a store with two entries.
use email_summary.Prelude.{
  subst, ap, ◌+◌, ◌≤◌, String, ◌≡◌, refl, ◌≢◌, Bool, true, false, none, some, List, [], ◌∷◌, arith,
  str_eq, length, is_some, if◌then◌else◌,
}
use email_summary.Prelude.Text.{norm, lower}
use email_summary.Accounts.Samples.{bob_handle, ada, bob, store, got}
use email_summary.Accounts.Store.{
  ok, err, ◌>>=◌, invalid_data, Entry, State, entries_of, find_entry, set_plan_status,
  set_polar_customer_id, delete_account, open_manifest, entry_for,
}
use email_summary.Accounts.Lookup.{
  Account, get_account, account_from_entry, load_accounts, all_accounts, match_address,
  telegram_from_entry,
}
use email_summary.Accounts.Register.{
  Registration, register_account, is_address, is_handle, check_handle, new_entry, carried, place,
  kept_handle,
}
use email_summary.Accounts.Register.Outcomes.{register_account_bounded}
use email_summary.Accounts.Settings.{
  Asked, Provider, set_settings, changed_fields, prefer, is_calendar_id,
}
use email_summary.Accounts.Keeps.{delete_account_effect}
use email_summary.Accounts.Routing.{HasNormalIds, inactive_is_unroutable}

abbrev again : Registration
again = record {
  email = " Ada@example.org";
  first = "Ada";
  last = "Lovelace";
  token_file = some "t";
  first_aliases = [];
  telegram_chat_id = none;
  telegram_token = none;
  plan_status = "inactive";
  state_file = none;
  timezone = none;
  auto_schedule = true;
  voice_file = none;
  handle = none;
}

abbrev registered : Entry × State
registered = got (ada, store) (register_account 2 bob_handle again store)

registers : register_account 2 bob_handle again store ≡ ok registered
unfolding register_account is_address is_handle check_handle new_entry carried place kept_handle
    open_manifest norm
registers = refl

register_account_bounded_example : length (entries_of (registered.1)) ≤ 2
register_account_bounded_example =
    register_account_bounded 2 bob_handle again store (registered.1) (registered.0) (omega arith)
      registers

finds_ada : find_entry (norm again.email) (entries_of store) ≡ some ada
unfolding norm
finds_ada = refl

abbrev stopped : String × State
stopped = got ("", store) (set_plan_status "ada@example.org" "inactive" store)

stops : set_plan_status "ada@example.org" "inactive" store ≡ ok stopped
unfolding set_plan_status open_manifest entry_for norm
stops = refl

abbrev deleted : Bool × State
deleted = got (false, store) (delete_account "bob@example.org" store)

deletes : delete_account "bob@example.org" store ≡ ok deleted
unfolding delete_account open_manifest norm
deletes = refl

delete_account_effect_example :
    (before : List Entry) × (after : List Entry) × (store.manifest ≡ some before)
    × ((deleted.1).manifest ≡ some after)
    × (deleted.0 ≡ is_some (find_entry (norm "bob@example.org") before))
    × (length (deleted.1).log ≡ length store.log + (if deleted.0 then 1 else 0))
    × ((other : String)
        → find_entry other after
          ≡ (if str_eq other (norm "bob@example.org") then none else find_entry other before))
delete_account_effect_example =
    delete_account_effect "bob@example.org" store (deleted.1) (deleted.0) deletes

abbrev linked : Entry × State
linked = got (bob, store) (set_polar_customer_id "bob@example.org" "cust-2" store)

-- Ada's customer is refused to Bob.
taken_customer : set_polar_customer_id "bob@example.org" "cust-1" store ≡ err invalid_data
unfolding set_polar_customer_id open_manifest entry_for norm
taken_customer = refl

abbrev asked : Asked
asked = record {
  timezone = some "Europe/Berlin";
  auto_schedule = some true;
  inference_provider = some "p";
  pii_analyzer = some false;
  ban_dashes = some true;
  community_calendar = some " Team@Group.calendar.google.com";
}

abbrev providers : List Provider
providers = record { name = "p"; configured = true } ∷ []

abbrev saved : Entry × State
saved = got (ada, store) (set_settings providers "ada@example.org" asked store)

saves : set_settings providers "ada@example.org" asked store ≡ ok saved
unfolding set_settings open_manifest entry_for norm is_calendar_id prefer changed_fields
saves = refl

abbrev routed : Account
routed = got (account_from_entry none ada) (do
  found ← get_account (some "bot") "ADA@example.net " store
  elim found [ none ↦ err invalid_data | some a ↦ ok a ])

routes : get_account (some "bot") "ADA@example.net " store ≡ ok (some routed)
unfolding get_account load_accounts all_accounts match_address norm account_from_entry
    telegram_from_entry lower
routes = refl

abbrev bob_found : Account
bob_found = account_from_entry none bob

still_routes : get_account none "bob@example.org" (stopped.1) ≡ ok (some bob_found)
unfolding get_account load_accounts all_accounts match_address norm account_from_entry
    telegram_from_entry lower set_plan_status open_manifest entry_for
still_routes = refl

store-HasNormalIds : (entries : List Entry) → store.manifest ≡ some entries → HasNormalIds entries
unfolding norm
store-HasNormalIds entries h =
    let normal : HasNormalIds (ada ∷ bob ∷ []) = (refl, (refl, tt)) in
    subst HasNormalIds (ap (λ o. entries_of (record { manifest = o; log = [] })) h) normal

inactive_is_unroutable_example : norm bob_found.id ≢ norm "ada@example.org"
inactive_is_unroutable_example =
    inactive_is_unroutable none "ada@example.org" "bob@example.org" store (stopped.1) (stopped.0)
      bob_found store-HasNormalIds stops still_routes
