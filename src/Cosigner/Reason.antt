-- ===== src/Cosigner/Reason.antt =====
-- Why a request was refused (the refusals of cosigner/policy.py). The source formats a reason into
-- a text; here it keeps the numbers that the text shows.
use email_summary.Prelude.{ℕ, String}

pub data Reason : Type 0 where
  disabled_by_env disabled_by_file : Reason
  attestation_refused : String → Reason
  bad_request : String → Reason
  already_wrapped : Reason
  sign_ceiling rewrap_ceiling per_user_ceiling sweep_ceiling aggregate_ceiling : ℕ → ℕ → Reason
