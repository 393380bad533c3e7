-- ===== src/Attestation/Checks.antt =====
-- What a verdict on a quote says.
use email_summary.Prelude.{
  ℕ, ◌≤◌, String, ◌⊎◌, ◌≡◌, refl, sym, ap, ◌∙◌, ◌↔◌, true, false, ◌&&◌, Option, none, some, List,
  [], ◌∷◌, str_eq, eq_iff, arith, length, some_pass, inl, inr, Bool-cases, Option-cases,
}
use email_summary.Prelude.Sets.{is_member}
use email_summary.Accounts.Store.{given}
use email_summary.Attestation.{
  Tried, raised, got, Measurements, ImageRow, Allowlist, Parsed, Report, Dcap, Libraries,
  QuoteVerdict, entries, pins, pins_all, name_of, match_in, carries, binds, check_signature,
  check_report, check_image, check_parsed, verify,
}

pub Tried-cases {ℓ} :
    {A : Type ℓ} (t : Tried A) → ((e : String) × (t ≡ raised e)) ⊎ ((a : A) × (t ≡ got a))
Tried-cases (raised e) = inl (e, refl)
Tried-cases (got a) = inr (a, refl)

-- The five checks of one quote: it is a TDX quote, it carries the binding, its image is an authorized
-- one, Intel's chain signs it, and its TCB status is allowed with no rejected advisory.
pub record Passes (lib : Libraries) (list : Allowlist) (now : ℕ) (quote : String)
    (expected : List ℕ) (scope : Option String) : Type 0 where
  dcap : Dcap
  parsed : Parsed
  name : String
  report : Report
  installed : lib.dcap ≡ some dcap
  parses : dcap.parse_quote quote ≡ got parsed
  tdx : parsed.is_tdx ≡ true
  bound : binds parsed.report_data expected ≡ some true
  authorized : match_in (entries list scope) parsed.actual ≡ some (some name)
  verified : check_signature dcap list quote now ≡ got report
  tcb : is_member report.status list.allowed_tcb_status ≡ true
  advisories : some_pass (λ a. is_member a report.advisory_ids) list.rejected_advisories ≡ false

report_ok :
    (list : Allowlist) (subject : Option String) (name : String) (checked : Tried Report)
    → (check_report list subject name checked).ok ≡ true
    → (report : Report) × (checked ≡ got report)
      × (is_member report.status list.allowed_tcb_status ≡ true)
      × (some_pass (λ a. is_member a report.advisory_ids) list.rejected_advisories ≡ false)
unfolding check_report
report_ok list subject name (raised e) h = absurd (ground arith)
report_ok list subject name (got report) h = (report, refl, ground arith, ground arith)

image_ok :
    (lib : Libraries) (dcap : Dcap) (list : Allowlist) (now : ℕ) (quote : String)
    (subject : Option String) (actual : Measurements) (scope : Option String) (v : QuoteVerdict)
    → check_image lib dcap list now quote subject actual scope ≡ some v
    → v.ok ≡ true
    → (name : String) × (match_in (entries list scope) actual ≡ some (some name))
      × (check_report list subject name (check_signature dcap list quote now) ≡ v)
unfolding check_image
image_ok lib dcap list now quote subject actual scope v h ok =
    elim (Option-cases (match_in (entries list scope) actual)) [
      | inl bad ↦ absurd (ground arith)
      | inr (none, matched) ↦ absurd (ground arith)
      | inr (some name, matched) ↦ (name, matched, ground arith)
    ]

parsed_ok :
    (lib : Libraries) (dcap : Dcap) (list : Allowlist) (now : ℕ) (quote : String)
    (subject : Option String) (expected : List ℕ) (scope : Option String) (parsed : Parsed)
    (v : QuoteVerdict)
    → check_parsed lib dcap list now quote subject expected scope parsed ≡ some v
    → v.ok ≡ true
    → (parsed.is_tdx ≡ true)
      × (binds parsed.report_data expected ≡ some true)
      × (check_image lib dcap list now quote subject parsed.actual scope ≡ some v)
unfolding check_parsed
parsed_ok lib dcap list now quote subject expected scope parsed v h ok =
    elim (Bool-cases parsed.is_tdx) [
      | inr other ↦ absurd (ground arith)
      | inl tdx ↦ elim (Option-cases (binds parsed.report_data expected)) [
        | inl bad ↦ absurd (ground arith)
        | inr (false, bound) ↦ absurd (ground arith)
        | inr (true, bound) ↦ (tdx, bound, ground arith)
      ]
    ]

module _ (lib : Libraries) (list : Allowlist) (now : ℕ) (quote : String) (subject : Option String)
    (expected : List ℕ) (scope : Option String) where
  -- A call that returns was given a quote.
  verify_shown :
      (v : QuoteVerdict)
      → verify lib list now quote subject expected scope ≡ some v
      → str_eq quote "" ≡ false
  unfolding verify
  verify_shown v h = elim (Bool-cases (str_eq quote "")) [
    | inr shown ↦ shown
    | inl empty ↦
        let raises : verify lib list now quote subject expected scope ≡ none =
          rw (verify, empty) refl in
        absurd (ground (arith, sym raises ∙ h))
  ]

  verify_parses :
      (v : QuoteVerdict)
      → verify lib list now quote subject expected scope ≡ some v
      → v.ok ≡ true
      → (dcap : Dcap) × (lib.dcap ≡ some dcap)
        × (parsed : Parsed) × (dcap.parse_quote quote ≡ got parsed)
        × (check_parsed lib dcap list now quote subject expected scope parsed ≡ some v)
  unfolding verify
  verify_parses v h ok =
      let shown = verify_shown v h in
      elim (Option-cases lib.dcap) [
        | inl missing ↦ absurd (ground arith)
        | inr (dcap, installed) ↦ elim (Tried-cases (dcap.parse_quote quote)) [
          | inl (error, unparsed) ↦ absurd (ground arith)
          | inr (parsed, parses) ↦ (dcap, installed, parsed, parses, ground arith)
        ]
      ]

  pub verify_passes :
      (v : QuoteVerdict)
      → verify lib list now quote subject expected scope ≡ some v
      → v.ok ≡ true
      → Passes lib list now quote expected scope
  verify_passes v h ok =
      let (dcap, installed, parsed, parses, rest) = verify_parses v h ok in
      let (tdx, bound, image) =
        parsed_ok lib dcap list now quote subject expected scope parsed v rest ok in
      let (name, authorized, checked) =
        image_ok lib dcap list now quote subject parsed.actual scope v image ok in
      let (report, verified, tcb, none_rejected) =
        report_ok list subject name (check_signature dcap list quote now)
          (ap (λ (w : QuoteVerdict). w.ok) checked ∙ ok) in
      record {
        dcap = dcap;
        parsed = parsed;
        name = name;
        report = report;
        installed = installed;
        parses = parses;
        tdx = tdx;
        bound = bound;
        authorized = authorized;
        verified = verified;
        tcb = tcb;
        advisories = none_rejected;
      }

  passes_verify :
      str_eq quote "" ≡ false
      → Passes lib list now quote expected scope
      → (w : QuoteVerdict) × (verify lib list now quote subject expected scope ≡ some w)
        × (w.ok ≡ true)
  unfolding verify check_parsed check_image check_report
  passes_verify shown p = (
    record {
      ok = true;
      subject = subject;
      reason = none;
      measurement = some p.name;
      attested = true;
    },
    rw
        (
          verify, shown, p.installed, p.parses, check_parsed, p.tdx, p.bound, check_image,
          p.authorized, p.verified, check_report, p.tcb, p.advisories,
        )
        refl,
    refl,
  )

-- A verdict is ok exactly when the quote passes all five checks.
pub verify_ok_iff :
    (lib : Libraries) (list : Allowlist) (now : ℕ) (quote : String) (subject : Option String)
    (expected : List ℕ) (scope : Option String) (v : QuoteVerdict)
    → verify lib list now quote subject expected scope ≡ some v
    → ((v.ok ≡ true) ↔ Passes lib list now quote expected scope)
verify_ok_iff lib list now quote subject expected scope v h = (
  verify_passes lib list now quote subject expected scope v h,
  (λ p.
      let shown = verify_shown lib list now quote subject expected scope v h in
      let (w, there, ok) = passes_verify lib list now quote subject expected scope shown p in
      let same : some w ≡ some v = sym there ∙ h in ground arith),
)

carries_one :
    (bytes a b : List ℕ)
    → length a ≡ length b
    → carries bytes a ≡ true
    → carries bytes b ≡ true
    → a ≡ b
carries_one bytes [] [] n h k = refl
carries_one bytes [] (y ∷ b) n h k = absurd (omega arith)
carries_one bytes (x ∷ a) [] n h k = absurd (omega arith)
carries_one [] (x ∷ a) (y ∷ b) n h k = cc
carries_one (z ∷ bytes) (x ∷ a) (y ∷ b) n h k =
    let ih = carries_one bytes a b (omega arith) (ground arith) (ground arith) in ground arith

-- The report data of a quote stands for one binding of a length: a quote for one key is not accepted
-- for another. An empty binding is never accepted.
pub binds_one :
    (bytes a b : List ℕ)
    → length a ≡ length b
    → binds bytes a ≡ some true
    → binds bytes b ≡ some true
    → (a ≡ b) × (1 ≤ length a)
unfolding binds
binds_one bytes [] b n h k = cc
binds_one bytes (x ∷ a) [] n h k = cc
binds_one bytes (x ∷ a) (y ∷ b) n h k =
    (carries_one bytes (x ∷ a) (y ∷ b) n (ground arith) (ground arith), omega arith)

pins-given :
    (pinned actual : Option String)
    → given pinned ≡ true
    → pins pinned actual ≡ true
    → (value : String) × (actual ≡ some value) × (str_eq value "" ≡ false)
pins-given none actual g h = cc
pins-given (some value) none g h = cc
pins-given (some value) (some other) g h = (other, refl, ground (arith, eq_iff value other))

-- The image that matches has the MRTD of an entry of the allowlist, which is not empty.
pub match_in_pins :
    (rows : List ImageRow) (actual : Measurements) (name : String)
    → match_in rows actual ≡ some (some name)
    → (mr_td : String) × (actual.mr_td ≡ some mr_td)
      × (str_eq mr_td "" ≡ false)
      × (some_pass (λ row. str_eq (name_of row) name && pins_all row.pinned actual) rows ≡ true)
unfolding match_in
match_in_pins [] actual name h = cc
match_in_pins (row ∷ rows) actual name h = elim (Bool-cases (pins_all row.pinned actual)) [
  | inl fits ↦
      let named : name_of row ≡ name = ground arith in
      let (mr_td, there, full) =
        pins-given row.pinned.mr_td actual.mr_td (ground arith) (ground arith) in
      (mr_td, there, full, ground (arith, eq_iff (name_of row) name))
  | inr other ↦
      let (mr_td, there, full, later) = match_in_pins rows actual name (ground arith) in
      (mr_td, there, full, ground arith)
]
