-- ===== src/Attestation/Samples.antt =====
-- An image, its quote and its certificate, for the runs at concrete inputs.
use email_summary.Prelude.{ℕ, true, none, some, [], ◌∷◌, if◌then◌else◌, str_eq}
use email_summary.Attestation.{
  raised, got, Measurements, ImageRow, Allowlist, Parsed, Dcap, Libraries,
}
use email_summary.Attestation.Client.{Cert, Certificates, Setting}

abbrev pub image : Measurements
image = record {
  mr_td = some "aa";
  rt_mr0 = some "b0";
  rt_mr1 = some "b1";
  rt_mr2 = some "b2";
  rt_mr3 = some "b3";
}

abbrev pub row : ImageRow
row = record { name = some "v1"; scope = none; pinned = record image { rt_mr0 = none } }

abbrev pub allowlist : Allowlist
allowlist = record {
  mode = none;
  dev_insecure_expires = none;
  measurements = row ∷ [];
  pccs_url = some "pccs";
  allowed_tcb_status = "UpToDate" ∷ [];
  rejected_advisories = "SA-1" ∷ [];
  quote_oid = some "1.2";
  binding = some "spki-sha256";
}

abbrev pub parsed : Parsed
parsed = record { is_tdx = true; report_data = 7 ∷ 8 ∷ 0 ∷ []; actual = image }

abbrev pub dcap : Dcap
dcap = record {
  parse_quote = λ quote. if str_eq quote "q" then got parsed else raised "no quote";
  get_collateral = λ url quote. got "collateral";
  verify_quote = λ quote collateral now. got (record { status = "UpToDate"; advisory_ids = [] });
}

abbrev pub libraries : Libraries
libraries = record { dcap = some dcap; digest = λ s. s; from_iso = λ s. none }

abbrev pub cert : Cert
cert = record {
  extension = λ oid. if str_eq oid "1.2" then some "q" else none;
  pem_digest = 1 ∷ [];
  spki_digest = 7 ∷ 8 ∷ [];
}

abbrev pub certificates : Certificates
certificates = record {
  load_cert = λ der. if str_eq der "der" then got cert else raised "no certificate";
  fingerprint_of = λ der. der;
}

abbrev pub at_time : ℕ → Setting
at_time t = record {
  override = none;
  tee_required = "1";
  today = 0;
  asked = t;
  verified = t;
  stored = t;
}
