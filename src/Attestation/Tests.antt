-- ===== src/Attestation/Tests.antt =====
-- Runs of the verdicts at concrete inputs.
use email_summary.Prelude.{ℕ, ◌≡◌, refl, ◌↔◌, true, none, some, List, [], ◌∷◌}
use email_summary.Prelude.Text.{strip, is_space}
use email_summary.Attestation.{
  QuoteVerdict, required, mode_of, match_in, binds, verify, check_parsed, check_image, check_report,
  check_signature, not_bound, refuse,
}
use email_summary.Attestation.Client.{
  cached, put_verdict, client_mode, verify_client, verify_required, verify_cert, extract_quote,
  report_data_for_cert,
}
use email_summary.Attestation.Checks.{Passes, verify_ok_iff}
use email_summary.Attestation.Samples.{image, row, allowlist, libraries, certificates, at_time}

abbrev good : QuoteVerdict
good = record {
  ok = true;
  subject = some "der";
  reason = none;
  measurement = some "v1";
  attested = true;
}

good_quote : verify libraries allowlist 100 "q" (some "der") (7 ∷ 8 ∷ []) none ≡ some good
unfolding verify check_parsed check_image check_report check_signature match_in binds
good_quote = refl

other_key :
    verify libraries allowlist 100 "q" (some "der") (7 ∷ 9 ∷ []) none
    ≡ some (refuse (some "der") none not_bound)
unfolding verify check_parsed check_image check_report check_signature match_in binds
other_key = refl

provisioned_is_never_insecure : mode_of libraries allowlist (some "dev-insecure") 0 ≡ none
unfolding mode_of strip is_space
provisioned_is_never_insecure = refl

verify_ok_iff_example : (good.ok ≡ true) ↔ Passes libraries allowlist 100 "q" (7 ∷ 8 ∷ []) none
verify_ok_iff_example =
    verify_ok_iff libraries allowlist 100 "q" (some "der") (7 ∷ 8 ∷ []) none good good_quote

bound : binds (7 ∷ 8 ∷ 0 ∷ []) (7 ∷ 8 ∷ []) ≡ some true
unfolding binds
bound = refl

abbrev key : List ℕ
key = 7 ∷ 8 ∷ []

matched : match_in (row ∷ []) image ≡ some (some "v1")
unfolding match_in
matched = refl

mode_is_required : client_mode libraries allowlist (at_time 100) ≡ some required
unfolding client_mode mode_of strip is_space
mode_is_required = refl

first_call :
    verify_client libraries certificates allowlist (at_time 100) "der" []
    ≡ some (good, record { subject = "der"; verdict = good; time = 100 } ∷ [])
unfolding verify_client client_mode mode_of strip is_space verify_required verify_cert cached
    put_verdict extract_quote report_data_for_cert verify check_parsed check_image check_report
    check_signature match_in binds
first_call = refl
