-- ===== src/Attestation/Client.antt =====
-- cosigner/attest.py: the verdict on a client certificate, and the cache of verdicts of
-- quote_policy.py. The parser of certificates and the hashes of its parts are parameters.
use email_summary.Prelude.{
  ℕ, ◌+◌, String, Bool, true, false, not, ◌||◌, Option, none, some, List, [], ◌∷◌, str_eq,
  if◌then◌else◌, leb,
}
use email_summary.Prelude.Text.{strip}
use email_summary.Accounts.Store.{given, same_text, or_text}
use email_summary.Attestation.{
  Tried, raised, got, Allowlist, Libraries, QuoteVerdict, Mode, required, dev_insecure, mode_of,
  refuse, verify, no_certificate, bad_certificate, no_quote, disabled,
}

-- A verdict, with the time it was stored.
pub record Stored : Type 0 where
  pub subject : String
  pub verdict : QuoteVerdict
  pub time : ℕ

abbrev pub recheck_seconds : ℕ
recheck_seconds = 86_400

abbrev pub failure_recheck_seconds : ℕ
failure_recheck_seconds = 60

-- `_ttl`
abbrev pub ttl_of : QuoteVerdict → ℕ
ttl_of verdict = if verdict.ok then recheck_seconds else failure_recheck_seconds

-- `self._entries.get(subject)`; what was stored last stands in front
abbrev pub find_stored : String → List Stored → Option Stored
find_stored subject [] = none
find_stored subject (e ∷ es) = if str_eq e.subject subject then some e else find_stored subject es

-- `VerdictCache.get`
unfoldable pub cached : List Stored → String → ℕ → Option QuoteVerdict
cached cache subject now = elim (find_stored subject cache) [
  | none ↦ none
  | some e ↦ if leb (e.time + ttl_of e.verdict) now then none else some e.verdict
]

-- `VerdictCache.put`
unfoldable pub put_verdict : String → QuoteVerdict → ℕ → List Stored → List Stored
put_verdict subject verdict now cache =
    record { subject = subject; verdict = verdict; time = now } ∷ cache

-- A parsed certificate: its extensions by their names, and the two digests it can be bound by.
pub record Cert : Type 0 where
  pub extension : String → Option String
  pub pem_digest : List ℕ
  pub spki_digest : List ℕ

-- `load_der_x509_certificate`, and `fingerprint`
pub record Certificates : Type 0 where
  pub load_cert : String → Tried Cert
  pub fingerprint_of : String → String

-- `report_data_for_cert`; `none` where it raises AllowlistInvalid
unfoldable pub report_data_for_cert : Allowlist → Cert → Option (List ℕ)
report_data_for_cert list cert =
    if same_text list.binding "pem-sha256"
    then some cert.pem_digest
    else if same_text list.binding "spki-sha256"
    then some cert.spki_digest
    else none

-- `extract_quote`; the outer `none` where it raises AllowlistInvalid
unfoldable pub extract_quote : Allowlist → Cert → Option (Option String)
extract_quote list cert =
    if given list.quote_oid then some (cert.extension (or_text list.quote_oid "")) else none

-- What one call reads of its surroundings; it looks at the clock three times.
pub record Setting : Type 0 where
  pub override : Option String
  pub tee_required : String
  pub today : ℕ
  pub asked : ℕ
  pub verified : ℕ
  pub stored : ℕ

abbrev pub says_required : String → Bool
says_required value =
    str_eq (strip value) "1" || str_eq (strip value) "true" || str_eq (strip value) "yes"

-- `mode`, with the refusal under TEE_REQUIRED; `none` where it raises
unfoldable pub client_mode : Libraries → Allowlist → Setting → Option Mode
client_mode lib list at = elim (mode_of lib list at.override at.today) [
  | none ↦ none
  | some required ↦ some required
  | some dev_insecure ↦ if says_required at.tee_required then none else some dev_insecure
]

abbrev pub unverified : Option String → QuoteVerdict
unverified subject = record {
  ok = true;
  subject = subject;
  reason = some disabled;
  measurement = none;
  attested = false;
}

-- The verdict that is stored, and the cache with it.
abbrev pub keep :
    String → ℕ → List Stored → Option QuoteVerdict → Option (QuoteVerdict × List Stored)
keep fp now cache none = none
keep fp now cache (some verdict) = some (verdict, put_verdict fp verdict now cache)

-- `verify_client` of a certificate that parses
unfoldable pub verify_cert :
    Libraries
    → Allowlist
    → Setting
    → String
    → Cert
    → List Stored
    → Option (QuoteVerdict × List Stored)
verify_cert lib list at fp cert cache = elim (extract_quote list cert) [
  | none ↦ none
  | some quote ↦
      if not (given quote)
      then some (refuse (some fp) none no_quote, cache)
      else elim (report_data_for_cert list cert) [
        | none ↦ none
        | some expected ↦
            keep fp at.stored cache
              (verify lib list at.verified (or_text quote "") (some fp) expected none)
      ]
]

-- `verify_client` in the mode `required`
unfoldable pub verify_required :
    Libraries
    → Certificates
    → Allowlist
    → Setting
    → String
    → List Stored
    → Option (QuoteVerdict × List Stored)
verify_required lib certs list at der cache =
    let fp = certs.fingerprint_of der in
    elim (cached cache fp at.asked) [
      | some verdict ↦ some (verdict, cache)
      | none ↦ elim (certs.load_cert der) [
        | raised error ↦ some (refuse (some fp) none (bad_certificate error), cache)
        | got cert ↦ verify_cert lib list at fp cert cache
      ]
    ]

-- `verify_client`, with the cache before and after; `none` where it raises. No certificate is the
-- empty text.
unfoldable pub verify_client :
    Libraries
    → Certificates
    → Allowlist
    → Setting
    → String
    → List Stored
    → Option (QuoteVerdict × List Stored)
verify_client lib certs list at der cache =
    let none_shown = str_eq der "" in
    let checked = verify_required lib certs list at der cache in
    elim (client_mode lib list at) [
      | none ↦ none
      | some dev_insecure ↦
          some (unverified (if none_shown then none else some (certs.fingerprint_of der)), cache)
      | some required ↦
          if none_shown then some (refuse none none no_certificate, cache) else checked
    ]
