-- ===== src/Daemon/BillingQueue/Retries.antt =====
-- No event is lost, and none is tried for ever.
use email_summary.Prelude.{
  ℕ, suc, ◌+◌, ◌≤◌, ◌<◌, String, ◌≡◌, refl, ap, subst, ◌∙◌, Bool, true, false, Option, none, some,
  List, [], ◌∷◌, ◌++◌, leb, length, length-append, count, All, arith, inl, inr, Bool-cases,
  Option-cases,
}
use email_summary.Accounts.Store.{Result-cases}
use email_summary.Billing.Polar.{Polar}
use email_summary.Billing.Events.{Event, apply_event}
use email_summary.Daemon.BillingQueue.{
  Spooled, max_attempts, drained, retry, Desk, failed, apply_one, apply_all, process_billing,
}

-- The events that are waiting, settled or dropped.
abbrev pub accounted : Desk → ℕ
accounted w = length w.spool + length w.results + length w.alerts

apply_one-accounted :
    (polar : Polar) (bot : Option String) (event : Event) (n : ℕ) (w : Desk)
    → accounted (apply_one polar bot event n w) ≡ suc (accounted w)
unfolding apply_one failed retry
apply_one-accounted polar bot event n w =
    elim (Result-cases (apply_event polar bot event w.accounts)) [
      | inl (e, raised) ↦ ground (
        arith,
        length-append w.spool (record { event = some event; attempts = some (n + 1) } ∷ []),
      )
      | inr (r, applied) ↦ ground arith
    ]

apply_all-accounted :
    (polar : Polar) (bot : Option String) (es : List (Event × ℕ)) (w : Desk)
    → accounted (apply_all polar bot es w) ≡ length es + accounted w
apply_all-accounted polar bot [] w = omega arith
apply_all-accounted polar bot (e ∷ es) w =
    apply_all-accounted polar bot es (apply_one polar bot (e.0) (e.1) w)
    ∙ rw (apply_one-accounted polar bot (e.0) (e.1) w) (ground arith)

-- Each event of the spool is, after a pass, either settled with a logged result, or back in the
-- spool, or dropped with an alert: their number is the same.
pub process_billing_loses_nothing :
    (polar : Polar) (bot : Option String) (w : Desk)
    → length (process_billing (some polar) bot w).spool
        + length (process_billing (some polar) bot w).results
        + length (process_billing (some polar) bot w).alerts
      ≡ length (drained w.spool) + length w.results + length w.alerts
unfolding process_billing
process_billing_loses_nothing polar bot w =
    apply_all-accounted polar bot (drained w.spool) (record w { spool = [] }) ∙ ground arith

-- A line with an event, whose attempts are at least `k`, and fewer than the most.
abbrev IsBetween : ℕ → Spooled → Type 0
IsBetween k line =
    (n : ℕ) × (event : Event) × (line.event ≡ some event)
    × (line.attempts ≡ some n)
    × (k ≤ n)
    × (n < max_attempts)

IsTried : ℕ → List (Event × ℕ) → Type 0
IsTried k = All (λ (e : Event × ℕ). k ≤ e.1)

All-append {ℓ κ} :
    {A : Type ℓ} (P : A → Type κ) (xs ys : List A) → All P xs → All P ys → All P (xs ++ ys)
All-append P [] ys f g = g
All-append P (x ∷ xs) ys f g = (f.0, All-append P xs ys f.1 g)

apply_one-IsBetween :
    (polar : Polar) (bot : Option String) (event : Event) (k n : ℕ) (w : Desk)
    → k ≤ n
    → All (IsBetween (suc k)) w.spool
    → All (IsBetween (suc k)) (apply_one polar bot event n w).spool
unfolding apply_one failed retry
apply_one-IsBetween polar bot event k n w h f =
    elim (Result-cases (apply_event polar bot event w.accounts)) [
      | inr (r, applied) ↦ rw (apply_one, applied) f
      | inl (e, raised) ↦ elim (Bool-cases (leb max_attempts (n + 1))) [
        | inl spent ↦ rw (apply_one, raised, failed, retry, spent) f
        | inr left ↦
            rw (apply_one, raised, failed, retry, left)
              (All-append (IsBetween (suc k)) w.spool
                (record { event = some event; attempts = some (n + 1) } ∷ []) f
                ((n + 1, event, refl, refl, omega arith, ground arith), tt))
      ]
    ]

apply_all-IsBetween :
    (polar : Polar) (bot : Option String) (k : ℕ) (es : List (Event × ℕ)) (w : Desk)
    → IsTried k es
    → All (IsBetween (suc k)) w.spool
    → All (IsBetween (suc k)) (apply_all polar bot es w).spool
unfolding IsTried
apply_all-IsBetween polar bot k [] w h f = f
apply_all-IsBetween polar bot k (e ∷ es) w h f =
    apply_all-IsBetween polar bot k es (apply_one polar bot (e.0) (e.1) w) h.1
      (apply_one-IsBetween polar bot (e.0) k (e.1) w h.0 f)

drained-IsTried :
    (k : ℕ) (spool : List Spooled) → All (IsBetween k) spool → IsTried k (drained spool)
unfolding IsTried
drained-IsTried k [] f = tt
drained-IsTried k (line ∷ spool) f = elim (Option-cases line.event) [
  | inl blank ↦ rw blank (drained-IsTried k spool f.1)
  | inr (event, there) ↦
      let (n, e, is_there, has, low, high) = f.0 in
      rw (there, has) (low, drained-IsTried k spool f.1)
]

drained-IsTried_zero : (spool : List Spooled) → IsTried 0 (drained spool)
unfolding IsTried
drained-IsTried_zero [] = tt
drained-IsTried_zero (line ∷ spool) = elim (Option-cases line.event) [
  | inl blank ↦ rw blank (drained-IsTried_zero spool)
  | inr (event, there) ↦ rw there (omega arith, drained-IsTried_zero spool)
]

length-drained :
    (k : ℕ) (spool : List Spooled) → All (IsBetween k) spool → length (drained spool) ≡ length spool
length-drained k [] f = refl
length-drained k (line ∷ spool) f =
    let (n, event, there, has, low, high) = f.0 in rw there (ap suc (length-drained k spool f.1))

-- Passes one after the other, each with what Polar answers at its time, and `none` where there is no
-- Polar to ask.
abbrev pub passes : List (Option Polar) → Option String → Desk → Desk
passes [] bot w = w
passes (polar ∷ polars) bot w = passes polars bot (process_billing polar bot w)

abbrev pub is_configured : Option Polar → Bool
is_configured none = false
is_configured (some polar) = true

-- The events that a pass would read, and those settled or dropped.
abbrev ledger : Desk → ℕ
ledger w = length (drained w.spool) + length w.results + length w.alerts

first_pass-IsBetween :
    (polar : Polar) (bot : Option String) (k : ℕ) (w : Desk)
    → IsTried k (drained w.spool)
    → All (IsBetween (suc k)) (process_billing (some polar) bot w).spool
unfolding process_billing
first_pass-IsBetween polar bot k w tried =
    apply_all-IsBetween polar bot k (drained w.spool) (record w { spool = [] }) tried tt

process_billing-ledger :
    (polar : Polar) (bot : Option String) (k : ℕ) (w : Desk)
    → IsTried k (drained w.spool)
    → ledger (process_billing (some polar) bot w) ≡ ledger w
process_billing-ledger polar bot k w tried =
    let after = process_billing (some polar) bot w in
    omega (
      arith,
      length-drained (suc k) after.spool (first_pass-IsBetween polar bot k w tried),
      process_billing_loses_nothing polar bot w,
    )

passes-IsBetween :
    (polars : List (Option Polar)) (bot : Option String) (k : ℕ) (w : Desk)
    → All (IsBetween k) w.spool
    → All (IsBetween (k + count is_configured polars)) (passes polars bot w).spool
      × (ledger (passes polars bot w) ≡ ledger w)
unfolding process_billing
passes-IsBetween [] bot k w f = (subst (λ n. All (IsBetween n) w.spool) (omega arith) f, refl)
passes-IsBetween (none ∷ polars) bot k w f = passes-IsBetween polars bot k w f
passes-IsBetween (some polar ∷ polars) bot k w f =
    let tried = drained-IsTried k w.spool f in
    let after = process_billing (some polar) bot w in
    let (later, kept) =
      passes-IsBetween polars bot (suc k) after (first_pass-IsBetween polar bot k w tried) in
    (
      subst (λ n. All (IsBetween n) (passes polars bot after).spool) (omega arith) later,
      kept ∙ process_billing-ledger polar bot k w tried,
    )

none_between :
    (k : ℕ) (spool : List Spooled) → max_attempts ≤ k → All (IsBetween k) spool → spool ≡ []
none_between k [] h f = refl
none_between k (line ∷ spool) h f =
    let (n, event, there, has, low, high) = f.0 in absurd (omega arith)

-- After passes of which at least as many as the most attempts found a Polar to ask, with no new event,
-- the spool is empty whatever it held and whatever failed, and none of its events is lost: the logged
-- results and the alerts together have grown by their number.
pub passes_empty_spool :
    (polars : List (Option Polar)) (bot : Option String) (w : Desk)
    → max_attempts ≤ count is_configured polars
    → ((passes polars bot w).spool ≡ [])
      × (length (passes polars bot w).results + length (passes polars bot w).alerts
          ≡ length (drained w.spool) + length w.results + length w.alerts)
unfolding process_billing
passes_empty_spool [] bot w h = absurd (omega arith)
passes_empty_spool (none ∷ polars) bot w h = passes_empty_spool polars bot w h
passes_empty_spool (some polar ∷ polars) bot w h =
    let tried = drained-IsTried_zero w.spool in
    let after = process_billing (some polar) bot w in
    let (left, kept) =
      passes-IsBetween polars bot 1 after (first_pass-IsBetween polar bot 0 w tried) in
    let empty : (passes polars bot after).spool ≡ [] =
      none_between (1 + count is_configured polars) (passes polars bot after).spool (omega arith)
        left in
    let gone : length (drained (passes polars bot after).spool) ≡ 0 =
      ap (λ s. length (drained s)) empty in
    (empty, omega (arith, gone, kept, process_billing-ledger polar bot 0 w tried))
