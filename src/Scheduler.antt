-- ===== src/Scheduler.antt =====
-- backend/daemons/scheduler.py: when a job is due, and one pass over the schedule. A moment is the
-- number of hours since a Monday at midnight UTC, and the microseconds into the hour.
pub mod Next
pub mod Passes
mod Tests
use email_summary.Prelude.{
  ℕ, zero, suc, ◌+◌, ◌*◌, ◌/◌, ◌%◌, String, Bool, true, false, not, ◌&&◌, ◌||◌, Option, none, some,
  List, [], ◌∷◌, map, str_eq, if◌then◌else◌, ltb, leb, ◌==◌, is_some, some_pass, select,
}

pub record Moment : Type 0 where
  pub hour : ℕ
  pub offset : ℕ

abbrev pub before : Moment → Moment → Bool
before m n = ltb m.hour n.hour || m.hour == n.hour && ltb m.offset n.offset

abbrev pub at_or_before : Moment → Moment → Bool
at_or_before m n = not (before n m)

-- `Cadence`, whose hours are only asked for membership.
pub record Cadence : Type 0 where
  pub hours : List ℕ
  pub minute : ℕ
  pub weekday : Option ℕ

abbrev pub below : ℕ → List ℕ → Bool
below n [] = true
below n (h ∷ hs) = ltb h n && below n hs

abbrev pub weekday_ok : Option ℕ → Bool
weekday_ok none = true
weekday_ok (some w) = ltb w 7

abbrev pub has_hours : List ℕ → Bool
has_hours [] = false
has_hours (h ∷ hs) = true

-- The assertions of `Cadence.__init__`.
abbrev pub is_cadence : Cadence → Bool
is_cadence c = has_hours c.hours && below 24 c.hours && ltb c.minute 60 && weekday_ok c.weekday

abbrev pub on_weekday : Option ℕ → ℕ → Bool
on_weekday none hour = true
on_weekday (some w) hour = hour / 24 % 7 == w

-- The hour of day is one of the cadence's, and so is the day.
abbrev pub fires : Cadence → ℕ → Bool
fires c hour = some_pass (λ h. h == hour % 24) c.hours && on_weekday c.weekday hour

-- `moment.replace(minute=self.minute, second=0, microsecond=0)`, in another hour
abbrev pub at_hour : Cadence → ℕ → Moment
at_hour c hour = record { hour = hour; offset = c.minute * 60_000_000 }

-- The loop of `next_after` from `step` on.
unfoldable pub search : ℕ → Cadence → Moment → ℕ → Option Moment
search zero c m step = none
search (suc left) c m step =
    let rest = search left c m (suc step) in
    if at_or_before (at_hour c (m.hour + step)) m
    then rest
    else if not (fires c (m.hour + step))
    then rest
    else some (at_hour c (m.hour + step))

abbrev pub horizon_hours : ℕ
horizon_hours = 192

-- `Cadence.next_after`; `none` is its AssertionError
unfoldable pub next_after : Cadence → Moment → Option Moment
next_after c m = search horizon_hours c m 0

pub record Job : Type 0 where
  pub name : String
  pub cadence : Cadence

-- `SCHEDULE`
abbrev pub schedule : List Job
schedule =
    record {
      name = "email-summary";
      cadence = record { hours = 5 ∷ []; minute = 0; weekday = none };
    }
    ∷ record {
      name = "gmail-watch";
      cadence = record { hours = 4 ∷ []; minute = 0; weekday = some 0 };
    }
    ∷ record {
      name = "billing-poller";
      cadence = record {
        hours = 0 ∷ 3 ∷ 6 ∷ 9 ∷ 12 ∷ 15 ∷ 18 ∷ 21 ∷ [];
        minute = 0;
        weekday = none;
      };
    }
    ∷ []

-- When each job last ran, by name.
abbrev pub Marks : Type 0
Marks = List (String × Moment)

abbrev pub last_run : String → Marks → Option Moment
last_run name [] = none
last_run name (x ∷ marks) = if str_eq (x.0) name then some (x.1) else last_run name marks

-- `marks[name] = moment`
abbrev pub set_mark : String → Moment → Marks → Marks
set_mark name t [] = (name, t) ∷ []
set_mark name t (x ∷ marks) =
    if str_eq (x.0) name then (name, t) ∷ marks else x ∷ set_mark name t marks

abbrev pub passed : Option Moment → Moment → Bool
passed none now = false
passed (some t) now = at_or_before t now

-- The test of `due` on one job
unfoldable pub is_due : Moment → Marks → Job → Bool
is_due now marks job = elim (last_run job.name marks) [
  | none ↦ false
  | some last ↦ passed (next_after job.cadence last) now
]

-- `due`
abbrev pub due : List Job → Moment → Marks → List Job
due jobs now marks = select (is_due now marks) jobs

-- The jobs without a mark get `now`.
abbrev pub seed : List Job → Moment → Marks → Marks
seed [] now marks = marks
seed (job ∷ jobs) now marks =
    let rest = seed jobs now marks in
    if is_some (last_run job.name marks) then rest else set_mark job.name now rest

-- The mark of each job that ran is the time at which it ended.
abbrev pub mark_ran : (String → Moment) → List Job → Marks → Marks
mark_ran ended [] marks = marks
mark_ran ended (job ∷ jobs) marks = mark_ran ended jobs (set_mark job.name (ended job.name) marks)

-- `tick`: the jobs that ran and the marks after
unfoldable pub tick : List Job → Moment → (String → Moment) → Marks → List Job × Marks
tick jobs now ended marks =
    let seeded = seed jobs now marks in
    let ran = due jobs now seeded in (ran, mark_ran ended ran seeded)
