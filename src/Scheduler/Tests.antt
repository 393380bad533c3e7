-- ===== src/Scheduler/Tests.antt =====
-- Runs of the schedule.
use email_summary.Prelude.{ℕ, ◌*◌, ◌<◌, String, ◌≡◌, refl, true, false, some, [], ◌∷◌, is_some}
use email_summary.Scheduler.{Moment, before, Cadence, fires, at_hour, next_after, search, Marks}
use email_summary.Scheduler.Next.{next_after_is_next, next_after_total}

abbrev weekly : Cadence
weekly = record { hours = 4 ∷ []; minute = 0; weekday = some 0 }

-- Tuesday at 3:00:01
abbrev tuesday : Moment
tuesday = record { hour = 27; offset = 1_000_000 }

-- Monday of the next week at 4:00
abbrev next_monday : Moment
next_monday = record { hour = 172; offset = 0 }

next_weekly : next_after weekly tuesday ≡ some next_monday
unfolding next_after search
next_weekly = refl

next_after_is_next_example :
    (before tuesday next_monday ≡ true)
    × (fires weekly 172 ≡ true)
    × (0 ≡ weekly.minute * 60_000_000)
    × ((k : ℕ) → k < 172 → before tuesday (at_hour weekly k) ≡ true → fires weekly k ≡ false)
next_after_is_next_example = next_after_is_next weekly tuesday next_monday next_weekly

next_after_total_example : is_some (next_after weekly tuesday) ≡ true
next_after_total_example = next_after_total weekly tuesday refl

-- The poller last ran on Monday at 23:30, the summary on Monday at 5:10.
abbrev marks : Marks
marks =
    ("billing-poller", record { hour = 23; offset = 0 })
    ∷ ("email-summary", record { hour = 5; offset = 600_000_000 })
    ∷ []

abbrev done : String → Moment
done name = record { hour = 27; offset = 90_000_000 }
