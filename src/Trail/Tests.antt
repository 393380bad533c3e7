-- ===== src/Trail/Tests.antt =====
-- Runs of the audit trail at concrete inputs.
use email_summary.Prelude.{◌+◌, ◌<◌, ◌≡◌, refl, none, List, [], ◌∷◌, All, arith, length}
use email_summary.Prelude.Split.{join}
use email_summary.Trail.{
  TrailRow, Trail, Origin, is_token, detail_string, record_event, maybe_prune, prune_before,
  retention_seconds, prune_interval,
}
use email_summary.Trail.Retained.{Step, write, pass, step, run, rows_expire}
use email_summary.Trail.Clean.{IsClean, run-IsClean}

abbrev nowhere : Origin
nowhere = record { source_ip = none; user_agent = none }

abbrev steps : List Step
steps =
    write "a" "plan" "active" ("chars:2048" ∷ "timezone" ∷ []) nowhere 10_000
    ∷ write "a" "plan" "The Body" [] nowhere 10_001
    ∷ pass 15_000_000
    ∷ write "b" "sign-in" "ok" [] nowhere 16_000_000
    ∷ []

abbrev empty : Trail
empty = record { events = []; last_prune = 0 }

one_is_left : length (run steps empty).events ≡ 1
unfolding run step record_event detail_string is_token maybe_prune prune_before join
one_is_left = refl

rows_expire_example :
    All
      (λ (e : TrailRow). 31_000_000 < e.time + retention_seconds + prune_interval)
      (step (pass 31_000_000) (run steps empty)).events
rows_expire_example =
    rows_expire steps 31_000_000 (omega arith, (omega arith, (omega arith, (omega arith, tt))))

run-IsClean_example : All IsClean (run steps empty).events
run-IsClean_example = run-IsClean steps empty tt
