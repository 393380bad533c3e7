-- ===== src/Cosigner/Policy/Targets.antt =====
-- `allowed_target` and `_limit` of cosigner/policy.py.
use email_summary.Prelude.{
  String, ◌≡◌, ◌↔◌, Option, none, some, arith, str_eq, eq_iff, if◌then◌else◌,
}

pub data TargetRefusal : Type 0 where
  bad_method bad_uri : String → TargetRefusal

-- `token_endpoint` is `protocol.TOKEN_ENDPOINT`.
unfoldable pub allowed_target : String → String → String → Option TargetRefusal
allowed_target token_endpoint htm htu =
    if str_eq htm "POST"
    then (if str_eq htu token_endpoint then none else some (bad_uri htu))
    else some (bad_method htm)

-- The signer signs a proof for one target alone: a POST to the token endpoint.
pub allowed_target_iff :
    (token_endpoint htm htu : String)
    → (allowed_target token_endpoint htm htu ≡ none) ↔ ((htm ≡ "POST") × (htu ≡ token_endpoint))
unfolding allowed_target
allowed_target_iff token_endpoint htm htu =
    ground (arith, eq_iff htm "POST", eq_iff htu token_endpoint)
