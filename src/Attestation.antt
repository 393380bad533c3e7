-- ===== src/Attestation.antt =====
-- backend/tee/quote_policy.py: the allowlist of images and the verdict on a TDX quote. dcap-qvl, the
-- hash and the parser of dates are parameters; a byte is a number.
pub mod Checks
pub mod Client
pub mod Trusted
pub mod Samples
mod Tests
use Prim.Native.String.{◌++◌}
use email_summary.Prelude.{
  ℕ, String, Bool, true, false, not, ◌&&◌, ◌||◌, Option, none, some, List, [], ◌∷◌, str_eq,
  if◌then◌else◌, is_some, leb, ltb, ◌==◌, take, length, select, some_pass,
}
use email_summary.Prelude.Sets.{is_member}
use email_summary.Prelude.Split.{join}
use email_summary.Prelude.Text.{strip}
use email_summary.Accounts.Store.{given, or_text, same_text}

-- What a call of a library ends with: an exception with its text, or a value.
pub data Tried {ℓ} (A : Type ℓ) : Type ℓ where
  raised : String → Tried A
  got : A → Tried A

-- MRTD and the four RTMRs, as hex; of an image, or of an entry that pins some of them.
pub record Measurements : Type 0 where
  pub mr_td : Option String
  pub rt_mr0 : Option String
  pub rt_mr1 : Option String
  pub rt_mr2 : Option String
  pub rt_mr3 : Option String

pub record ImageRow : Type 0 where
  pub name : Option String
  pub scope : Option String
  pub pinned : Measurements

-- `Policy`: the keys of the allowlist that the code reads; an absent key is `none` or empty.
pub record Allowlist : Type 0 where
  pub mode : Option String
  pub dev_insecure_expires : Option String
  pub measurements : List ImageRow
  pub pccs_url : Option String
  pub allowed_tcb_status : List String
  pub rejected_advisories : List String
  pub quote_oid : Option String
  pub binding : Option String

pub record Parsed : Type 0 where
  pub is_tdx : Bool
  pub report_data : List ℕ
  pub actual : Measurements

pub record Report : Type 0 where
  pub status : String
  pub advisory_ids : List String

-- The calls of dcap-qvl: of a quote, of the url and a quote, and of a quote, its collateral and a time.
pub record Dcap : Type 0 where
  pub parse_quote : String → Tried Parsed
  pub get_collateral : String → String → Tried String
  pub verify_quote : String → String → ℕ → Tried Report

-- `dcap` is `none` where the wheel is not installed; `from_iso` is the number of the day.
pub record Libraries : Type 0 where
  pub dcap : Option Dcap
  pub digest : String → String
  pub from_iso : String → Option ℕ

pub data VerdictReason : Type 0 where
  not_installed not_tdx not_bound not_authorized disabled no_certificate no_quote : VerdictReason
  no_parse not_verified tcb_status bad_certificate : String → VerdictReason
  advisories : List String → VerdictReason

-- `Verdict`
pub record QuoteVerdict : Type 0 where
  pub ok : Bool
  pub subject : Option String
  pub reason : Option VerdictReason
  pub measurement : Option String
  pub attested : Bool

pub data Mode : Type 0 where
  required dev_insecure : Mode

-- `_check_dev_insecure_expiry`: whether it returns
abbrev pub expiry_holds : Libraries → Allowlist → ℕ → Bool
expiry_holds lib list today =
    given list.dev_insecure_expires
    && elim (lib.from_iso (strip (or_text list.dev_insecure_expires ""))) [
      | none ↦ false
      | some day ↦ leb today day
    ]

abbrev pub has_no_rows : List ImageRow → Bool
has_no_rows [] = true
has_no_rows (row ∷ rows) = false

-- `override or self.get("mode") or REQUIRED`
abbrev pub stated_mode : Option String → Option String → String
stated_mode override mode =
    if given override
    then or_text override ""
    else if given mode
    then or_text mode ""
    else "required"

-- `mode`; `none` where it raises AllowlistInvalid
unfoldable pub mode_of : Libraries → Allowlist → Option String → ℕ → Option Mode
mode_of lib list override today =
    let value = strip (stated_mode override list.mode) in
    if str_eq value "required"
    then some required
    else if not (str_eq value "dev-insecure")
    then none
    else if has_no_rows list.measurements && expiry_holds lib list today
    then some dev_insecure
    else none

abbrev pub of_scope : Option String → ImageRow → Bool
of_scope none row = true
of_scope (some scope) row = same_text row.scope scope

-- `entries`
abbrev pub entries : Allowlist → Option String → List ImageRow
entries list scope = select (of_scope scope) list.measurements

-- `entry.get(f) is None or entry.get(f) == actual.get(f)`
abbrev pub pins : Option String → Option String → Bool
pins none actual = true
pins (some value) none = false
pins (some value) (some actual) = str_eq value actual

abbrev pub pins_all : Measurements → Measurements → Bool
pins_all pinned actual =
    pins pinned.mr_td actual.mr_td
    && pins pinned.rt_mr0 actual.rt_mr0
    && pins pinned.rt_mr1 actual.rt_mr1
    && pins pinned.rt_mr2 actual.rt_mr2
    && pins pinned.rt_mr3 actual.rt_mr3

abbrev pub name_of : ImageRow → String
name_of row = if given row.name then or_text row.name "" else "unnamed"

-- The loop of `match`; the outer `none` where it raises AllowlistInvalid
unfoldable pub match_in : List ImageRow → Measurements → Option (Option String)
match_in [] actual = some none
match_in (row ∷ rows) actual =
    let rest = match_in rows actual in
    if not (given row.pinned.mr_td)
    then none
    else if pins_all row.pinned actual
    then some (some (name_of row))
    else rest

abbrev pub shown : Option String → String
shown none = "None"
shown (some s) = s

-- `aggregate`, before its text is cut to 32 characters, which `digest` does
abbrev pub aggregate : Libraries → Measurements → String
aggregate lib m = lib.digest (
    join "|" (
      ("mr_td=" ++ shown m.mr_td)
      ∷ ("rt_mr0=" ++ shown m.rt_mr0)
      ∷ ("rt_mr1=" ++ shown m.rt_mr1)
      ∷ ("rt_mr2=" ++ shown m.rt_mr2)
      ∷ ("rt_mr3=" ++ shown m.rt_mr3)
      ∷ []))

abbrev pub same_bytes : List ℕ → List ℕ → Bool
same_bytes [] [] = true
same_bytes [] (y ∷ ys) = false
same_bytes (x ∷ xs) [] = false
same_bytes (x ∷ xs) (y ∷ ys) = x == y && same_bytes xs ys

-- `not any(got)`
abbrev pub all_zero : List ℕ → Bool
all_zero [] = true
all_zero (x ∷ xs) = x == 0 && all_zero xs

-- `got[:len(expected)] == expected and not any(got[len(expected):])`
abbrev pub carries : List ℕ → List ℕ → Bool
carries bytes [] = all_zero bytes
carries [] (e ∷ expected) = false
carries (b ∷ bytes) (e ∷ expected) = b == e && carries bytes expected

-- `_binds`; `none` where it raises AllowlistInvalid
unfoldable pub binds : List ℕ → List ℕ → Option Bool
binds bytes [] = none
binds bytes (e ∷ expected) = some (carries bytes (e ∷ expected))

abbrev pub refuse : Option String → Option String → VerdictReason → QuoteVerdict
refuse subject measurement reason = record {
  ok = false;
  subject = subject;
  reason = some reason;
  measurement = measurement;
  attested = false;
}

-- `fetch_collateral` and `dcap.verify`, in one try
unfoldable pub check_signature : Dcap → Allowlist → String → ℕ → Tried Report
check_signature dcap list quote now =
    if not (given list.pccs_url)
    then raised "no pccs_url in the allowlist; cannot fetch collateral"
    else elim (dcap.get_collateral (or_text list.pccs_url "") quote) [
      | raised error ↦ raised error
      | got collateral ↦ dcap.verify_quote quote collateral now
    ]

-- The last check: the TCB status and the advisories.
unfoldable pub check_report : Allowlist → Option String → String → Tried Report → QuoteVerdict
check_report list subject measurement (raised error) =
    refuse subject (some measurement) (not_verified error)
check_report list subject measurement (got report) =
    let rejected = select (λ a. is_member a report.advisory_ids) list.rejected_advisories in
    if not (is_member report.status list.allowed_tcb_status)
    then refuse subject (some measurement) (tcb_status report.status)
    else if some_pass (λ a. is_member a report.advisory_ids) list.rejected_advisories
    then refuse subject (some measurement) (advisories rejected)
    else record {
      ok = true;
      subject = subject;
      reason = none;
      measurement = some measurement;
      attested = true;
    }

-- `verify` from the match on
unfoldable pub check_image :
    Libraries
    → Dcap
    → Allowlist
    → ℕ
    → String
    → Option String
    → Measurements
    → Option String
    → Option QuoteVerdict
check_image lib dcap list now quote subject actual scope =
    elim (match_in (entries list scope) actual) [
      | none ↦ none
      | some none ↦ some (refuse subject (some (aggregate lib actual)) not_authorized)
      | some (some name) ↦
          some (check_report list subject name (check_signature dcap list quote now))
    ]

-- `verify` of a quote that parses
unfoldable pub check_parsed :
    Libraries
    → Dcap
    → Allowlist
    → ℕ
    → String
    → Option String
    → List ℕ
    → Option String
    → Parsed
    → Option QuoteVerdict
check_parsed lib dcap list now quote subject expected scope parsed =
    let image = check_image lib dcap list now quote subject parsed.actual scope in
    if not parsed.is_tdx
    then some (refuse subject none not_tdx)
    else elim (binds parsed.report_data expected) [
      | none ↦ none
      | some bound ↦ if bound then image else some (refuse subject none not_bound)
    ]

-- `verify`; `none` where it raises AllowlistInvalid, or asserts on a quote without bytes
unfoldable pub verify :
    Libraries
    → Allowlist
    → ℕ
    → String
    → Option String
    → List ℕ
    → Option String
    → Option QuoteVerdict
verify lib list now quote subject expected scope = if str_eq quote "" then none else elim lib.dcap [
  | none ↦ some (refuse subject none not_installed)
  | some dcap ↦ elim (dcap.parse_quote quote) [
    | raised error ↦ some (refuse subject none (no_parse error))
    | got parsed ↦ check_parsed lib dcap list now quote subject expected scope parsed
  ]
]
