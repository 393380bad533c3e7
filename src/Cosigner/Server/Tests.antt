-- ===== src/Cosigner/Server/Tests.antt =====
-- Runs of the endpoints at concrete inputs.
use email_summary.Prelude.{
  ℕ, ◌+◌, ◌≤◌, String, ◌≡◌, refl, false, some, List, [], ◌∷◌, str_eq, count, if◌then◌else◌,
}
use email_summary.Prelude.Text.{strip, is_space}
use email_summary.Cosigner.Audit.{empty_db}
use email_summary.Cosigner.Policy.{default_limits}
use email_summary.Attestation.Samples.{allowlist, libraries, certificates, at_time}
use email_summary.Cosigner.Server.{
  Field, absent, text, Body, object, KeyCall, made, Keys, Wire, Endpoint, at_unwrap, at_wrap,
  Response, error, inner, Post, Process, Box, do_post, serve,
}
use email_summary.Cosigner.Server.Releases.{
  is_release, allowed_rows, ReleasesToEnclave, serve_releases,
}

abbrev keys : Keys
keys = record {
  wrap_key = λ uid s. made s;
  unwrap_key = λ uid s. made s;
  rewrap_key = λ uid s. made s;
  dpop_proof = λ htm htu nonce. made htu;
}

abbrev wire : Wire
wire = record {
  unb64 = λ s. some s;
  token_endpoint = "token";
  describe = λ r. "target";
  explain = λ r. "refused";
}

abbrev box : Box
box = record {
  libraries = libraries;
  certificates = certificates;
  allowlist = allowlist;
  wire = wire;
  keys = keys;
  limits = default_limits;
}

abbrev fields : String → Field
fields name =
    if str_eq name "uid" then text "u" else if str_eq name "outer" then text "o" else absent

abbrev unwrapping : String → ℕ → Post
unwrapping der t = record {
  endpoint = at_unwrap;
  cert_header = der;
  body = object fields;
  setting = at_time t;
  switches = record { disabled_env = ""; kill_file = false };
  clock = record { rate_now = t; sweep_now = t; record_now = t };
}

abbrev start : Process
start = record { cache = []; log = empty_db }

abbrev posts : List Post
posts =
    unwrapping "der" 1_000
    ∷ unwrapping "" 1_001
    ∷ unwrapping "other" 1_002
    ∷ unwrapping "der" 1_003
    ∷ []

one_released : (do_post box (unwrapping "der" 1_000) start).0 ≡ inner "o"
unfolding do_post strip is_space email_summary.Cosigner.Server.handle_cert
    email_summary.Cosigner.Server.handle_job email_summary.Cosigner.Server.job_of
    email_summary.Cosigner.Server.answer email_summary.Attestation.Client.verify_client
    email_summary.Attestation.Client.client_mode email_summary.Attestation.Client.verify_required
    email_summary.Attestation.Client.cached email_summary.Attestation.Client.verify_cert
    email_summary.Attestation.Client.extract_quote
    email_summary.Attestation.Client.report_data_for_cert
    email_summary.Attestation.Client.put_verdict email_summary.Attestation.mode_of
    email_summary.Attestation.verify email_summary.Attestation.check_parsed
    email_summary.Attestation.binds email_summary.Attestation.check_image
    email_summary.Attestation.match_in email_summary.Attestation.check_report
    email_summary.Attestation.check_signature email_summary.Cosigner.Audit.action_names
    email_summary.Cosigner.Audit.distinct_uids_since email_summary.Cosigner.Audit.ever_granted
    email_summary.Cosigner.Audit.granted_since email_summary.Cosigner.Audit.insert_row
    email_summary.Cosigner.Audit.record_decision email_summary.Cosigner.Policy.authorize
    email_summary.Cosigner.Policy.decide email_summary.Cosigner.Policy.disabled_reason
    email_summary.Cosigner.Policy.rate_refusal email_summary.Cosigner.Policy.sweep_refusal
    email_summary.Cosigner.Policy.unwrap_refusal email_summary.Cosigner.Policy.wrap_once_refusal
one_released = refl

serve_releases_example :
    ReleasesToEnclave box [] posts (serve box posts start).0
    × (count is_release (serve box posts start).0 + allowed_rows start.log
        ≤ allowed_rows (serve box posts start).1.log)
serve_releases_example = serve_releases box [] posts start refl tt
