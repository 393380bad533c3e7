-- ===== src/Daemon/BillingQueue.antt =====
-- billing_queue.py over backend/spool.py, and `process_billing` of daemon_loop.py.
pub mod Retries
use email_summary.Prelude.{
  ℕ, zero, suc, ◌+◌, String, Bool, true, false, Option, none, some, List, [], ◌∷◌, ◌++◌,
  if◌then◌else◌, leb,
}
use email_summary.Accounts.Store.{ok, err, State}
use email_summary.Billing.Polar.{Polar}
use email_summary.Billing.Events.{Event, Outcome, apply_event}

-- A line of the spool; `none` where the key is absent or of the wrong type.
pub record Spooled : Type 0 where
  pub event : Option Event
  pub attempts : Option ℕ

abbrev pub max_attempts : ℕ
max_attempts = 5

-- `enqueue`
abbrev pub enqueue : Event → List Spooled → List Spooled
enqueue event spool = spool ++ record { event = some event; attempts = some 0 } ∷ []

-- `drain`, whose spool is empty afterwards
abbrev pub drained : List Spooled → List (Event × ℕ)
drained [] = []
drained (line ∷ spool) = elim line.event [
  | none ↦ drained spool
  | some event ↦ (event, elim line.attempts [ none ↦ 0 | some n ↦ n ]) ∷ drained spool
]

-- `retry`: whether the event was put back, and the spool
unfoldable pub retry : Event → ℕ → List Spooled → Bool × List Spooled
retry event attempts spool =
    if leb max_attempts (attempts + 1)
    then (false, spool)
    else (true, spool ++ record { event = some event; attempts = some (attempts + 1) } ∷ [])

-- The daemon's side: the spool, the accounts, the results logged, and the drops alerted, newest
-- first.
pub record Desk : Type 0 where
  pub spool : List Spooled
  pub accounts : State
  pub results : List Outcome
  pub alerts : List Event

-- After a failure: put back, or an alert.
unfoldable pub failed : Event → ℕ → Desk → Desk
failed event attempts w =
    let put_back = retry event attempts w.spool in
    if put_back.0 then record w { spool = put_back.1 } else record w { alerts = event ∷ w.alerts }

-- One round of the loop.
unfoldable pub apply_one : Polar → Option String → Event → ℕ → Desk → Desk
apply_one polar bot event attempts w = elim (apply_event polar bot event w.accounts) [
  | ok r ↦ record w { accounts = r.1; results = r.0 ∷ w.results }
  | err e ↦ failed event attempts w
]

abbrev pub apply_all : Polar → Option String → List (Event × ℕ) → Desk → Desk
apply_all polar bot [] w = w
apply_all polar bot (e ∷ es) w = apply_all polar bot es (apply_one polar bot (e.0) (e.1) w)

-- `process_billing`; `polar` is `none` where `PolarBilling()` raises.
unfoldable pub process_billing : Option Polar → Option String → Desk → Desk
process_billing none bot w = w
process_billing (some polar) bot w = apply_all polar bot (drained w.spool) (record w { spool = [] })
