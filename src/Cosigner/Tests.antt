-- ===== src/Cosigner/Tests.antt =====
-- Runs of the co-signer at concrete inputs.
use email_summary.Prelude.{
  ℕ, ◌≤◌, String, ◌≡◌, refl, ◌≢◌, true, false, none, some, List, [], ◌∷◌, arith, length, some_pass,
}
use email_summary.Prelude.Sets.{is_member, HasNoRepeats}
use email_summary.Cosigner.Reason.{already_wrapped, sweep_ceiling}
use email_summary.Cosigner.Audit.{
  Action, wrap, unwrap_and_sign, unwrap, allow, Row, Db, empty_db, every, record_decision,
  granted_since, distinct_uids_since, ever_granted, backfill,
}
use email_summary.Cosigner.Audit.Grants.{backfill_same}
use email_summary.Cosigner.Policy.{
  Switches, Limits, Clock, Verdict, Request, request, rate, decide, authorize, rate_refusal,
  disabled_reason, wrap_once_refusal,
}
use email_summary.Cosigner.Policy.Outcomes.{refused_consumes_nothing}
use email_summary.Cosigner.Policy.Alerts.{Refused}
use email_summary.Cosigner.Audit.Distinct.{names_uid, distinct_uids_since-eq-size}
use email_summary.Cosigner.Retention.{prune}
use email_summary.Cosigner.Retention.Invisible.{decide-prune}
use email_summary.Cosigner.Service.{Step, ask, age, run, wraps}
use email_summary.Cosigner.Service.Covers.{run-CoversLog}
use email_summary.Cosigner.Service.WrapOnce.{wrap_once}
use email_summary.Cosigner.Service.Ceilings.{WithinCeilings, run-WithinCeilings}
use email_summary.Cosigner.Service.Sweep.{SweepHolds}
use email_summary.Cosigner.Service.Sweep.Steps.{run-SweepHolds}

abbrev on : Switches
on = record { disabled_env = ""; kill_file = false }

abbrev attested : Verdict
attested = record {
  ok = true;
  fingerprint = some "f1";
  reason = none;
  measurement = some "m1";
  attested = true;
}

abbrev at : ℕ → Clock
at t = record { rate_now = t; sweep_now = t; record_now = t }

abbrev from_account : String → Action → Request
from_account u a = record { uid = some u; action = a; verdict = attested; precheck = none }

abbrev tight : Limits
tight = record { per_user = 2; total = 3; sign = 2; rewraps = 2; distinct = 2 }

abbrev day_in_life : List Step
day_in_life =
    ask on (at 10_000) (from_account "a" wrap)
    ∷ ask on (at 10_001) (from_account "a" wrap)
    ∷ ask on (at 10_002) (from_account "a" unwrap)
    ∷ ask on (at 10_003) (from_account "b" unwrap_and_sign)
    ∷ age 10_004
    ∷ ask on (at 10_004) (from_account "c" unwrap)
    ∷ ask on (at 10_005) (from_account "a" unwrap)
    ∷ []

abbrev after_wrap : Db
after_wrap = (authorize on tight (at 10_000) (from_account "a" wrap) empty_db).1

-- The second wrap is refused.
second_wrap :
    (authorize on tight (at 10_001) (from_account "a" wrap) after_wrap).0
    ≡ some (record { kind = request; reason = already_wrapped })
unfolding authorize decide disabled_reason wrap_once_refusal rate_refusal record_decision
    ever_granted
second_wrap = refl

empty-WithinCeilings : WithinCeilings tight empty_db
empty-WithinCeilings = record {
  account = λ u a k s. omega arith;
  total = λ a k s. omega arith;
  sign = λ s. omega arith;
  rewraps = λ s. omega arith;
}

run-WithinCeilings_example : WithinCeilings tight (run tight day_in_life empty_db)
run-WithinCeilings_example =
    run-WithinCeilings tight day_in_life empty_db (omega arith) empty-WithinCeilings

names_account : {P : Type 0} (u : String) → P → some u ≢ none
names_account u p e = cc

run-SweepHolds_example : SweepHolds tight (run tight day_in_life empty_db)
run-SweepHolds_example =
    run-SweepHolds tight day_in_life 0 empty_db
      (
        omega arith,
        (omega arith, omega arith),
        names_account "a",
        (
          omega arith,
          (omega arith, omega arith),
          names_account "a",
          (
            omega arith,
            (omega arith, omega arith),
            names_account "a",
            (
              omega arith,
              (omega arith, omega arith),
              names_account "b",
              (
                omega arith,
                (omega arith, omega arith),
                names_account "c",
                (omega arith, (omega arith, omega arith), names_account "a", tt),
              ),
            ),
          ),
        ),
      )
      (record { bounded = λ s. omega arith; past = tt })

wrap_once_example : wraps "a" tight day_in_life empty_db ≤ 1
wrap_once_example = wrap_once "a" tight day_in_life empty_db

decide-prune_example :
    decide on tight (at 3_000_000) (from_account "a" wrap) (prune 3_000_000 after_wrap).1
    ≡ decide on tight (at 3_000_000) (from_account "a" wrap) after_wrap
decide-prune_example =
    decide-prune 3_000_000 on tight (at 3_000_000) (from_account "a" wrap) after_wrap (omega arith)
      (omega arith)

refused_consumes_nothing_example :
    let after = (authorize on tight (at 10_001) (from_account "a" wrap) after_wrap).1 in
    (granted_since after 0 every (some "a") ≡ granted_since after_wrap 0 every (some "a"))
    × (distinct_uids_since after 0 wrap [] ≡ distinct_uids_since after_wrap 0 wrap [])
    × (ever_granted after (some "a") wrap ≡ ever_granted after_wrap (some "a") wrap)
refused_consumes_nothing_example =
    refused_consumes_nothing on tight (at 10_001) (from_account "a" wrap) after_wrap
      (λ e. cc (second_wrap, e)) 0 every (some "a") wrap []

abbrev busy : Db
busy = run tight day_in_life empty_db

distinct_uids_since-eq-size_example :
    (s : List String) × (distinct_uids_since busy 9_000 unwrap_and_sign (unwrap ∷ []) ≡ length s)
    × HasNoRepeats s
    × ((u : String)
        → is_member u s
          ≡ some_pass (names_uid 9_000 (unwrap_and_sign ∷ unwrap ∷ []) u) busy.requests)
distinct_uids_since-eq-size_example =
    distinct_uids_since-eq-size busy 9_000 unwrap_and_sign (unwrap ∷ [])

backfill_same_example : backfill busy ≡ busy
unfolding backfill
backfill_same_example = backfill_same busy (run-CoversLog tight day_in_life empty_db)

abbrev row_of : ℕ → String → Action → Row
row_of t u a = record {
  ts = t;
  uid = u;
  action = a;
  decision = allow;
  reason = none;
  fingerprint = none;
  measurement = none;
  attested = true;
}

abbrev one_unwrap : Db
one_unwrap = record { requests = row_of 10_000 "a" unwrap ∷ []; grants = [] }

abbrev two_signed : List Row
two_signed = row_of 10_001 "a" unwrap_and_sign ∷ row_of 10_002 "a" unwrap_and_sign ∷ []

abbrev sweeps : List Refused
sweeps =
    record {
      action = unwrap;
      refusal = record { kind = rate; reason = sweep_ceiling 40 40 };
      at = 1_000;
    }
    ∷ record {
      action = unwrap;
      refusal = record { kind = rate; reason = sweep_ceiling 41 40 };
      at = 1_400;
    }
    ∷ record {
      action = unwrap;
      refusal = record { kind = rate; reason = sweep_ceiling 40 40 };
      at = 2_000;
    }
    ∷ []
