-- ===== src/Billing/Events.antt =====
-- `PolarBilling.apply_event`: one webhook event, and what it does to the plan of an account.
pub mod Effect
use email_summary.Prelude.{
  String, Bool, true, false, ◌&&◌, ◌||◌, Option, none, some, str_eq, if◌then◌else◌,
}
use email_summary.Accounts.Store.{
  Result, ok, err, ◌>>=◌, ◌>>◌, guard, assertion, State, set_plan_status,
}
use email_summary.Accounts.Lookup.{Account}
use email_summary.Billing.Polar.{Data, Polar, subscription_entitled}
use email_summary.Billing.Resolve.{resolve_account}

-- What the sentence that is returned says.
pub data Outcome : Type 0 where
  already : String → String → Outcome
  flipped : String → String → String → Outcome
  ignored : Option String → Outcome
  nobody : Outcome

-- `_apply`
unfoldable pub apply_plan : Account → String → State → Result (Outcome × State)
apply_plan acct target s =
    let flip = (do
      (prior, s') ← set_plan_status acct.id target s
      ok (flipped acct.id prior target, s')) in
    (do
      guard (str_eq target "active" || str_eq target "inactive") assertion
      if str_eq acct.plan_status target then ok (already acct.id target, s) else flip)

-- `s.startswith(prefix)`
starts_with : String → String → Bool
starts_with String.[] s = true
starts_with (String.◌∷◌ p ps) String.[] = false
starts_with (String.◌∷◌ p ps) (String.◌∷◌ c s) =
    str_eq (String.◌∷◌ p "") (String.◌∷◌ c "") && starts_with ps s

pub record Event : Type 0 where
  pub type_name : Option String
  pub data_of : Data

abbrev pub plan_of_status : Option String → String
plan_of_status status = if subscription_entitled status then "active" else "inactive"

-- The plan an event asks for; `none` where it is ignored.
unfoldable pub event_target : Event → Option String
unfolding starts_with
event_target e = elim e.type_name [
  | none ↦ none
  | some t ↦
      if str_eq t "order.paid"
      then some "active"
      else if starts_with "subscription." t
      then some (plan_of_status e.data_of.status)
      else none
]

unfoldable pub apply_to : Option Account → String → State → Result (Outcome × State)
apply_to none target s = ok (nobody, s)
apply_to (some acct) target s = apply_plan acct target s

-- `apply_event`
unfoldable pub apply_event : Polar → Option String → Event → State → Result (Outcome × State)
apply_event polar bot e s = elim (event_target e) [
  | none ↦ ok (ignored e.type_name, s)
  | some target ↦ (do acct ← resolve_account polar bot e.data_of s; apply_to acct target s)
]
