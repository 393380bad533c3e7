-- ===== src/Cosigner/Policy/Alerts.antt =====
-- `_alert` of cosigner/policy.py: which refusals send a message to the operator. Times are whole
-- seconds. Two refusals are the same incident when action, kind and the text before the first `(`
-- agree; that text is fixed for every refusal but those of attestation and of a request's shape.
use Prim.Native.Char.{code}
use email_summary.Prelude.{
  ℕ, ◌+◌, ◌≤◌, String, ◌≡◌, refl, Bool, true, false, ◌&&◌, List, [], ◌∷◌, arith, str_eq, ltb, ◌==◌,
  if◌then◌else◌, All, All-mono, eq_iff, inl, inr, Bool-cases,
}
use email_summary.Prelude.Text.{strip}
use email_summary.Cosigner.Reason.{
  Reason, disabled_by_env, disabled_by_file, attestation_refused, bad_request, already_wrapped,
  sign_ceiling, rewrap_ceiling, per_user_ceiling, sweep_ceiling, aggregate_ceiling,
}
use email_summary.Cosigner.Audit.{Action, action_eq}
use email_summary.Cosigner.Audit.Counts.{action_eq→eq, action_eq_refl}
use email_summary.Cosigner.Policy.{
  Kind, disabled, attestation, request, rate, Refusal, distinct_window_seconds,
}

abbrev alert_interval_seconds : ℕ
alert_interval_seconds = 300

abbrev sweep_reason : String
sweep_reason = "distinct-account ceiling reached"

before_paren : String → String
before_paren String.[] = String.[]
before_paren (String.◌∷◌ c s) =
    let rest = before_paren s in if code c == 40 then String.[] else String.◌∷◌ c rest

-- `refusal.reason.split("(")[0].strip()`
alert_head : Reason → String
unfolding before_paren strip
alert_head disabled_by_env = "co-signer disabled by COSIGNER_DISABLED"
alert_head disabled_by_file = "co-signer disabled by kill switch"
alert_head (attestation_refused text) = strip (before_paren text)
alert_head (bad_request text) = strip (before_paren text)
alert_head already_wrapped = "already wrapped for this uid"
alert_head (sign_ceiling _ _) = "sign ceiling reached"
alert_head (rewrap_ceiling _ _) = "rewrap ceiling reached"
alert_head (per_user_ceiling _ _) = "per-user rate limit reached"
alert_head (sweep_ceiling _ _) = sweep_reason
alert_head (aggregate_ceiling _ _) = "aggregate ceiling reached"

-- `_alert_interval`
pub alert_interval : String → ℕ
alert_interval head =
    if str_eq head sweep_reason then distinct_window_seconds else alert_interval_seconds

abbrev kind_eq : Kind → Kind → Bool
kind_eq disabled disabled = true
kind_eq attestation attestation = true
kind_eq request request = true
kind_eq rate rate = true
kind_eq _ _ = false

pub record AlertKey : Type 0 where
  pub action : Action
  pub kind : Kind
  pub head : String

pub key_eq : AlertKey → AlertKey → Bool
key_eq a b = action_eq a.action b.action && kind_eq a.kind b.kind && str_eq a.head b.head

-- `_LAST_ALERT`, and the messages sent so far, the newest first, each with its time.
pub record AlertState : Type 0 where
  pub last : List (AlertKey × ℕ)
  pub sent : List (AlertKey × ℕ)

abbrev pub initial : AlertState
initial = record { last = []; sent = [] }

-- `_LAST_ALERT.get(key, 0)`
last_alert : AlertKey → List (AlertKey × ℕ) → ℕ
last_alert k [] = 0
last_alert k ((j, t) ∷ m) = if key_eq j k then t else last_alert k m

-- `_LAST_ALERT[key] = now`
set_last : AlertKey → ℕ → List (AlertKey × ℕ) → List (AlertKey × ℕ)
set_last k now [] = (k, now) ∷ []
set_last k now ((j, t) ∷ m) = if key_eq j k then (j, now) ∷ m else (j, t) ∷ set_last k now m

alert_key : Action → Refusal → AlertKey
unfolding alert_head
alert_key action f = record { action = action; kind = f.kind; head = alert_head f.reason }

alert_at : AlertKey → ℕ → AlertState → AlertState
alert_at key now s =
    if ltb now (last_alert key s.last + alert_interval key.head)
    then s
    else record { last = set_last key now s.last; sent = (key, now) ∷ s.sent }

-- `_alert`
pub alert : Action → Refusal → ℕ → AlertState → AlertState
unfolding alert_key alert_at
alert action f now s = alert_at (alert_key action f) now s

pub record Refused : Type 0 where
  pub action : Action
  pub refusal : Refusal
  pub at : ℕ

pub alert_all : List Refused → AlertState → AlertState
alert_all [] s = s
alert_all (r ∷ rs) s = alert_all rs (alert r.action r.refusal r.at s)

kind_eq_refl : (k : Kind) → kind_eq k k ≡ true
kind_eq_refl disabled = refl
kind_eq_refl _ = refl

kind_eq→eq : (a b : Kind) → kind_eq a b ≡ true → a ≡ b
kind_eq→eq disabled b h = ground arith
kind_eq→eq attestation b h = ground arith
kind_eq→eq request b h = ground arith
kind_eq→eq rate b h = ground arith

key_eq_refl : (k : AlertKey) → key_eq k k ≡ true
unfolding key_eq
key_eq_refl k = ground (arith, action_eq_refl k.action, kind_eq_refl k.kind, eq_iff k.head k.head)

key_eq→eq : (a b : AlertKey) → key_eq a b ≡ true → a ≡ b
unfolding key_eq
key_eq→eq a b h =
    ground (arith, action_eq→eq a.action b.action, kind_eq→eq a.kind b.kind, eq_iff a.head b.head)

last_alert-set_last :
    (k j : AlertKey) (now : ℕ) (m : List (AlertKey × ℕ))
    → last_alert j (set_last k now m) ≡ (if key_eq k j then now else last_alert j m)
unfolding last_alert set_last
last_alert-set_last k j now [] = refl
last_alert-set_last k j now ((i, t) ∷ m) =
    ground (arith, key_eq→eq i k, key_eq→eq k j, last_alert-set_last k j now m)

-- Messages of one incident, with the gap that is due between them.
abbrev pub Apart : AlertKey × ℕ → AlertKey × ℕ → Type 0
Apart (k, t) (j, u) = key_eq j k ≡ true → u + alert_interval k.head ≤ t

abbrev pub IsSpaced : List (AlertKey × ℕ) → Type 0
IsSpaced [] = Unit
IsSpaced (x ∷ xs) = All (Apart x) xs × IsSpaced xs

-- The table holds the last message of each incident.
record AlertOk (s : AlertState) : Type 0 where
  spaced : IsSpaced s.sent
  recorded : All (λ x. x.1 ≤ last_alert x.0 s.last) s.sent

recorded-set_last :
    (k : AlertKey) (now : ℕ) (m : List (AlertKey × ℕ)) (x : AlertKey × ℕ)
    → last_alert k m ≤ now
    → x.1 ≤ last_alert x.0 m
    → x.1 ≤ last_alert x.0 (set_last k now m)
recorded-set_last k now m (j, u) le h = rw last_alert-set_last (ground (arith, key_eq→eq k j))

alert_at-AlertOk :
    (k : AlertKey) (now : ℕ) (s : AlertState) → AlertOk s → AlertOk (alert_at k now s)
unfolding alert_at
alert_at-AlertOk k now s h =
    elim (Bool-cases (ltb now (last_alert k s.last + alert_interval k.head))) [
      | inl silent ↦ rw silent h
      | inr due ↦ rw due (record {
        spaced = (
          All-mono (λ x. x.1 ≤ last_alert x.0 s.last) (Apart (k, now)) s.sent
              (λ (j, u) le same. ground (arith, key_eq→eq j k)) h.recorded,
          h.spaced,
        );
        recorded = (
          rw last_alert-set_last (rw key_eq_refl (omega arith)),
          All-mono (λ x. x.1 ≤ last_alert x.0 s.last)
              (λ x. x.1 ≤ last_alert x.0 (set_last k now s.last)) s.sent
              (λ x le. recorded-set_last k now s.last x (ground arith) le) h.recorded,
        );
      })
    ]

alert_all-AlertOk : (rs : List Refused) (s : AlertState) → AlertOk s → AlertOk (alert_all rs s)
unfolding alert_all alert
alert_all-AlertOk [] s h = h
alert_all-AlertOk (r ∷ rs) s h =
    alert_all-AlertOk rs (alert r.action r.refusal r.at s)
      (alert_at-AlertOk (alert_key r.action r.refusal) r.at s h)

-- Whatever is refused, in any order and with any clock, two messages about one incident are at
-- least its interval apart: a quarter of an hour for a sweep, and five minutes for all else.
pub alert_all-IsSpaced : (rs : List Refused) → IsSpaced (alert_all rs initial).sent
alert_all-IsSpaced rs =
    (alert_all-AlertOk rs initial (record { spaced = tt; recorded = tt })).spaced
