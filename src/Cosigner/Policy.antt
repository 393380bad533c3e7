-- ===== src/Cosigner/Policy.antt =====
-- cosigner/policy.py: what the co-signer will do, how often, and for whom. Times are whole seconds;
-- `now - window` stops at 0, which selects the same rows because no row is older than 0.
pub mod Alerts
pub mod Targets
pub mod Outcomes
pub mod Endpoints
use Prim.Native.Nat.{max}
use email_summary.Prelude.{
  ℕ, ◌-◌, String, Bool, true, false, ◌||◌, Option, none, some, List, [], ◌∷◌, str_eq, leb, ltb,
  if◌then◌else◌,
}
use email_summary.Cosigner.Reason.{
  Reason, disabled_by_env, disabled_by_file, attestation_refused, bad_request, already_wrapped,
  sign_ceiling, rewrap_ceiling, per_user_ceiling, sweep_ceiling, aggregate_ceiling,
}
use email_summary.Cosigner.Audit.{
  Action, wrap, unwrap_and_sign, unwrap, sign_dpop, rewrap, allow, deny, Db, one, several,
  record_decision, granted_since, distinct_uids_since, ever_granted,
}

pub data Kind : Type 0 where
  disabled attestation request rate : Kind

pub record Refusal : Type 0 where
  pub kind : Kind
  pub reason : Reason

abbrev pub window_seconds : ℕ
window_seconds = 3600

abbrev pub distinct_window_seconds : ℕ
distinct_window_seconds = 900

abbrev pub longest_window : ℕ
longest_window = max window_seconds distinct_window_seconds

-- What `_limit` read for each ceiling.
pub record Limits : Type 0 where
  pub per_user : ℕ
  pub total : ℕ
  pub sign : ℕ
  pub rewraps : ℕ
  pub distinct : ℕ

abbrev pub default_limits : Limits
default_limits = record { per_user = 60; total = 200; sign = 200; rewraps = 500; distinct = 40 }

-- What the kill switch reads: `COSIGNER_DISABLED`, stripped, and whether the file is there.
pub record Switches : Type 0 where
  pub disabled_env : String
  pub kill_file : Bool

pub record Verdict : Type 0 where
  pub ok : Bool
  pub fingerprint : Option String
  pub reason : Option String
  pub measurement : Option String
  pub attested : Bool

pub record Request : Type 0 where
  pub uid : Option String
  pub action : Action
  pub verdict : Verdict
  pub precheck : Option String

-- One call reads the clock up to three times, in this order.
pub record Clock : Type 0 where
  pub rate_now : ℕ
  pub sweep_now : ℕ
  pub record_now : ℕ

unfoldable pub disabled_reason : Switches → Option Reason
disabled_reason s =
    if str_eq s.disabled_env "1" || str_eq s.disabled_env "true" || str_eq s.disabled_env "yes"
    then some disabled_by_env
    else if s.kill_file
    then some disabled_by_file
    else none

unfoldable pub wrap_once_refusal : Option String → Db → Option Refusal
wrap_once_refusal uid db =
    if ever_granted db uid wrap
    then some (record { kind = request; reason = already_wrapped })
    else none

-- `KEY_RELEASING` is (unwrap_and_sign, unwrap).
unfoldable pub sweep_refusal : Limits → ℕ → Option String → Db → Option Refusal
sweep_refusal limits now uid db =
    let since = now - distinct_window_seconds in
    let seen = distinct_uids_since db since unwrap_and_sign (unwrap ∷ []) in
    if ltb 0 (granted_since db since (several unwrap_and_sign (unwrap ∷ [])) uid)
    then none
    else if leb limits.distinct seen
    then some (record { kind = rate; reason = sweep_ceiling seen limits.distinct })
    else none

-- `if refusal is None: refusal = next`, and `if first is not None: return first`.
abbrev pub or_else : Option Refusal → Option Refusal → Option Refusal
or_else (some refusal) next = some refusal
or_else none next = next

-- What `_rate_refusal` does for the two actions that release key material.
unfoldable pub unwrap_refusal : Limits → Clock → Option String → Action → Db → Option Refusal
unwrap_refusal limits clock uid action db =
    let since = clock.rate_now - window_seconds in
    let used = granted_since db since (one action) uid in
    let total = granted_since db since (one action) none in
    if leb limits.per_user used
    then some (record { kind = rate; reason = per_user_ceiling used limits.per_user })
    else or_else (sweep_refusal limits clock.sweep_now uid db) (
        if leb limits.total total
        then some (record { kind = rate; reason = aggregate_ceiling total limits.total })
        else none)

unfoldable pub rate_refusal : Limits → Clock → Option String → Action → Db → Option Refusal
rate_refusal limits clock uid wrap db = none
rate_refusal limits clock uid sign_dpop db =
    let signed = granted_since db (clock.rate_now - window_seconds) (one sign_dpop) none in
    if leb limits.sign signed
    then some (record { kind = rate; reason = sign_ceiling signed limits.sign })
    else none
rate_refusal limits clock uid rewrap db =
    let rewrapped = granted_since db (clock.rate_now - window_seconds) (one rewrap) none in
    if leb limits.rewraps rewrapped
    then some (record { kind = rate; reason = rewrap_ceiling rewrapped limits.rewraps })
    else none
rate_refusal limits clock uid unwrap_and_sign db =
    unwrap_refusal limits clock uid unwrap_and_sign db
rate_refusal limits clock uid unwrap db = unwrap_refusal limits clock uid unwrap db

abbrev pub or_attestation : Option String → String
or_attestation none = "attestation refused"
or_attestation (some reason) = if str_eq reason "" then "attestation refused" else reason

abbrev pub disabled_refusal : Switches → Option Refusal
disabled_refusal s = elim (disabled_reason s) [
  | some reason ↦ some (record { kind = disabled; reason = reason })
  | none ↦ none
]

abbrev pub attestation_refusal : Verdict → Option Refusal
attestation_refusal v =
    if v.ok
    then none
    else some
        (record { kind = attestation; reason = attestation_refused (or_attestation v.reason) })

abbrev pub precheck_refusal : Option String → Option Refusal
precheck_refusal none = none
precheck_refusal (some text) = some (record { kind = request; reason = bad_request text })

abbrev pub wrap_refusal : Option String → Action → Db → Option Refusal
wrap_refusal uid wrap db = wrap_once_refusal uid db
wrap_refusal uid _ db = none

-- The refusal that `authorize` decides, in its order.
unfoldable pub decide : Switches → Limits → Clock → Request → Db → Option Refusal
decide switches limits clock req db = or_else (disabled_refusal switches) (
    or_else (attestation_refusal req.verdict) (
      or_else (precheck_refusal req.precheck) (
        or_else (wrap_refusal req.uid req.action db)
          (rate_refusal limits clock req.uid req.action db))))

abbrev pub write_decision : Option Refusal → ℕ → Request → Db → Db
write_decision none at req db =
    record_decision req.uid req.action allow none req.verdict.fingerprint req.verdict.measurement
      req.verdict.attested at db
write_decision (some refusal) at req db =
    record_decision req.uid req.action deny (some refusal.reason) req.verdict.fingerprint
      req.verdict.measurement req.verdict.attested at db

-- `authorize` up to the end of the lock: the answer, and the log with its row.
unfoldable pub authorize : Switches → Limits → Clock → Request → Db → Option Refusal × Db
authorize switches limits clock req db =
    let refusal = decide switches limits clock req db in
    (refusal, write_decision refusal clock.record_now req db)
