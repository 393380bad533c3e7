-- ===== src/Daemon/Hook/Tests.antt =====
-- Pushes at concrete inputs.
use email_summary.Prelude.{
  ◌<◌, String, ◌⊎◌, ◌≡◌, refl, true, Option, none, some, [], ◌∷◌, str_eq, if◌then◌else◌,
}
use email_summary.Prelude.Split.{split}
use email_summary.Prelude.Text.{strip, lower, is_space}
use email_summary.Prelude.Decimal.{read}
use email_summary.Daemon.Hook.{
  Claims, rejected, claims, Answered, Google, HookConfig, claims_pass, cache_lifetime, refresh,
  for_kid, check_token, bearer, bytes, Push, route_push, read_and_route, HookState, handle_token,
  hook_post,
}
use email_summary.Daemon.Hook.Wakes.{NamesAddress, hook_post_wakes}

abbrev config : HookConfig
config = record { audience = "https://hook"; service_account = "push@gserviceaccount.com" }

abbrev good : Claims
good = record {
  iss = some "accounts.google.com";
  aud = some "https://hook";
  email = some "push@gserviceaccount.com";
  email_verified = some true;
}

abbrev google : Google
google = record {
  decode_kid = λ token. some (some "k2");
  decode = λ token certs. if str_eq token "t" then claims good else rejected;
  address_in = λ body. some body;
}

abbrev push : String → Push
push token = record { authorization = token; length = bytes 5; body = "a@x.org" }

abbrev start : HookState
start = record { cache = record { certs = []; fetched_at = 0; expires = 0; tries = 0 }; spool = [] }

abbrev downloaded : Option Answered
downloaded = some (record { certs = ("k2", "cert") ∷ []; cache_control = "public, max-age=100" })

lifetime_is_clamped : cache_lifetime "public, max-age=100" ≡ 300
unfolding cache_lifetime split strip lower is_space read
lifetime_is_clamped = refl

one_wake :
    (hook_post google config 1_000 downloaded (push "Bearer t") start).1.spool
    ≡ record { email = some "a@x.org"; account_id = none } ∷ []
unfolding hook_post handle_token bearer for_kid refresh check_token claims_pass read_and_route
    route_push cache_lifetime split strip lower is_space read
one_wake = refl

forged_is_refused : (hook_post google config 1_000 downloaded (push "Bearer x") start).0 ≡ 401
unfolding hook_post handle_token bearer for_kid refresh check_token claims_pass read_and_route
    route_push cache_lifetime split strip lower is_space read
forged_is_refused = refl

hook_post_wakes_example :
    let after = (hook_post google config 1_000 downloaded (push "Bearer t") start).1 in
    (after.spool ≡ start.spool)
    ⊎ (NamesAddress google (push "Bearer t") start.spool after.spool
        × (1_000 < after.cache.expires)
        × ((token : String) × (c : Claims) × (bearer "Bearer t" ≡ some token)
            × (google.decode token after.cache.certs ≡ claims c)
            × (claims_pass config c ≡ true)))
hook_post_wakes_example = hook_post_wakes google config 1_000 downloaded (push "Bearer t") start
