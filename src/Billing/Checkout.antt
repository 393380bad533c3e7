-- ===== src/Billing/Checkout.antt =====
-- `PolarBilling.confirm_checkout` and `portal_url`.
pub mod Settles
use email_summary.Prelude.{
  String, Bool, true, false, not, ◌&&◌, ◌||◌, Option, none, some, str_eq, if◌then◌else◌,
}
use email_summary.Accounts.Store.{
  Result, ok, err, ◌>>=◌, Error, invalid_data, Entry, State, given, or_text, same_text,
  set_polar_customer_id,
}
use email_summary.Accounts.Lookup.{Account, account_from_entry}
use email_summary.Billing.Polar.{Data, Polar, valid_id, customer_of}
use email_summary.Billing.Resolve.{resolve_account}
use email_summary.Billing.Events.{Outcome, apply_plan}

pub data Confirmed : Type 0 where
  -- the refusals, in the order of the code
  no_checkout_id bad_checkout_id unreadable not_owner not_paid customer_taken : Confirmed
  paid : Outcome → Confirmed

abbrev pub is_paid : Option String → Bool
is_paid none = false
is_paid (some status) = str_eq status "confirmed" || str_eq status "succeeded"

-- `set_polar_customer_id` where only `InvalidAccountData` is caught: `none` for that.
unfoldable pub link_customer : String → String → State → Result (Option (Entry × State))
link_customer account_id customer_id s = elim (set_polar_customer_id account_id customer_id s) [
  | ok r ↦ ok (some r)
  | err invalid_data ↦ ok none
  | err e ↦ err e
]

abbrev pub is_owner : Option Account → Account → Bool
is_owner none acct = false
is_owner (some owner) acct = str_eq owner.id acct.id

-- After the link: `True, self._apply(acct, "active")`
unfoldable pub settle : Account → State → Result (Confirmed × State)
settle acct s = do (outcome, s') ← apply_plan acct "active" s; ok (paid outcome, s')

unfoldable pub settle_linked :
    Option String → Option (Entry × State) → State → Result (Confirmed × State)
settle_linked bot none s = ok (customer_taken, s)
settle_linked bot (some (e, s')) s = settle (account_from_entry bot e) s'

-- `if customer_id and acct.polar_customer_id != customer_id`
abbrev pub needs_link : Option String → Account → Bool
needs_link none acct = false
needs_link (some cid) acct = not (str_eq cid "") && not (same_text acct.polar_customer_id cid)

-- From the paid check on.
unfoldable pub settle_checkout : Option String → Account → Data → State → Result (Confirmed × State)
settle_checkout bot acct body s =
    let linking = (do
      r ← link_customer acct.id (or_text (customer_of body) "") s
      settle_linked bot r s) in
    if not (is_paid body.status)
    then ok (not_paid, s)
    else if needs_link (customer_of body) acct
    then linking
    else settle acct s

unfoldable pub confirm_body :
    Polar → Option String → Account → Data → State → Result (Confirmed × State)
confirm_body polar bot acct body s = do
  owner ← resolve_account polar bot body s
  if is_owner owner acct then settle_checkout bot acct body s else ok (not_owner, s)

unfoldable pub read_checkout :
    Polar → Option String → String → Account → State → Result (Confirmed × State)
read_checkout polar bot checkout_id acct s = elim (polar.get_checkout checkout_id) [
  | none ↦ ok (unreadable, s)
  | some body ↦ confirm_body polar bot acct body s
]

-- `confirm_checkout`; its answer is paid where the value is `paid`
unfoldable pub confirm_checkout :
    Polar → Option String → Option String → Account → State → Result (Confirmed × State)
confirm_checkout polar bot none acct s = ok (no_checkout_id, s)
confirm_checkout polar bot (some checkout_id) acct s =
    if str_eq checkout_id ""
    then ok (no_checkout_id, s)
    else if not (valid_id checkout_id)
    then ok (bad_checkout_id, s)
    else read_checkout polar bot checkout_id acct s

-- `portal_url`
unfoldable pub portal_url : Polar → Account → Option String
portal_url polar acct = elim acct.polar_customer_id [
  | none ↦ none
  | some cid ↦ elim (polar.create_customer_session cid) [
    | none ↦ none
    | some url ↦ if str_eq cid "" then none else url
  ]
]
