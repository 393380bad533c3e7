-- ===== src/Trail/Retained.antt =====
-- How long a row stays, and what a row can hold.

use email_summary.Prelude.{
  ℕ, ◌+◌, ◌-◌, ◌≤◌, ◌<◌, String, ◌≡◌, refl, not, none, some, List, [], ◌∷◌, arith, ltb, All, select,
  All-mono, inl, inr, Bool-cases, Option-cases,
}
use email_summary.Trail.{
  TrailRow, Trail, Origin, insert_event, detail_string, record_event, prune_before, maybe_prune,
  retention_seconds, prune_interval,
}

-- Every row is younger than the retention was at the last prune.
abbrev pub KeepsRetention : Trail → Type 0
KeepsRetention trail =
    All (λ (e : TrailRow). trail.last_prune ≤ e.time + retention_seconds) trail.events

kept_rows :
    (now : ℕ) (events : List TrailRow)
    → All
        (λ (e : TrailRow). now ≤ e.time + retention_seconds)
        (select (λ e. not (ltb e.time (now - retention_seconds))) events)
kept_rows now [] = tt
kept_rows now (e ∷ events) = elim (Bool-cases (ltb e.time (now - retention_seconds))) [
  | inl old ↦ rw old (kept_rows now events)
  | inr young ↦ rw young (ground arith, kept_rows now events)
]

maybe_prune-KeepsRetention :
    (now : ℕ) (trail : Trail)
    → KeepsRetention trail
    → KeepsRetention (maybe_prune now trail).1
      × (now < (maybe_prune now trail).1.last_prune + prune_interval)
unfolding maybe_prune prune_before
maybe_prune-KeepsRetention now trail keeps =
    elim (Bool-cases (ltb now (trail.last_prune + prune_interval))) [
      | inl soon ↦ rw (maybe_prune, soon) (keeps, ground arith)
      | inr due ↦ rw (maybe_prune, due, prune_before) (kept_rows now trail.events, omega arith)
    ]

-- A call of `record`, or the daemon's of `maybe_prune`, with its time.
pub data Step : Type 0 where
  write : String → String → String → List String → Origin → ℕ → Step
  pass : ℕ → Step

abbrev pub time_of : Step → ℕ
time_of (write account action outcome detail origin now) = now
time_of (pass now) = now

-- A call that asserts leaves the table as it is.
unfoldable pub step : Step → Trail → Trail
step (write account action outcome detail origin now) trail =
    elim (record_event account action outcome detail origin now trail) [
      | none ↦ trail
      | some after ↦ after
    ]
step (pass now) trail = (maybe_prune now trail).1

unfoldable pub run : List Step → Trail → Trail
run [] trail = trail
run (s ∷ steps) trail = run steps (step s trail)

-- The clock does not run backwards.
abbrev pub IsMonotone : ℕ → List Step → Type 0
IsMonotone t [] = Unit
IsMonotone t (s ∷ steps) = (t ≤ time_of s) × IsMonotone (time_of s) steps

-- What holds at the time.
abbrev Holds : ℕ → Trail → Type 0
Holds t trail = KeepsRetention trail × (trail.last_prune ≤ t)

maybe_prune-Holds :
    (t now : ℕ) (trail : Trail) → t ≤ now → Holds t trail → Holds now (maybe_prune now trail).1
unfolding maybe_prune prune_before
maybe_prune-Holds t now trail later (keeps, before) = (
  (maybe_prune-KeepsRetention now trail keeps).0,
  elim (Bool-cases (ltb now (trail.last_prune + prune_interval))) [
    | inl soon ↦ rw (maybe_prune, soon) (omega arith)
    | inr due ↦ rw (maybe_prune, due, prune_before) (omega arith)
  ],
)

record_event_row :
    (account action outcome : String) (detail : List String) (origin : Origin) (now : ℕ)
    (trail after : Trail)
    → record_event account action outcome detail origin now trail ≡ some after
    → (row : TrailRow) × (row.time ≡ now) × (after ≡ (maybe_prune now (insert_event row trail)).1)
unfolding record_event
record_event_row account action outcome detail origin now trail after h =
    elim (Option-cases (detail_string detail)) [
      | inl bad ↦ absurd (ground arith)
      | inr (text, good) ↦ (
        record {
          time = now;
          account = account;
          action = action;
          outcome = outcome;
          detail = text;
          source_ip = origin.source_ip;
          user_agent = origin.user_agent;
        },
        refl,
        ground arith,
      )
    ]

step-Holds :
    (t : ℕ) (s : Step) (trail : Trail)
    → t ≤ time_of s
    → Holds t trail
    → Holds (time_of s) (step s trail)
unfolding step record_event
step-Holds t (pass now) trail later holds = maybe_prune-Holds t now trail later holds
step-Holds t (write account action outcome detail origin now) trail later (keeps, before) =
    elim (Option-cases (record_event account action outcome detail origin now trail)) [
      | inl asserts ↦ rw (step, asserts) (keeps, omega arith)
      | inr (after, writes) ↦
          let (row, timed, shape) =
            record_event_row account action outcome detail origin now trail after writes in
          rw (step, writes, shape)
            (maybe_prune-Holds t now (insert_event row trail) later ((omega arith, keeps), before))
    ]

run-Holds :
    (t : ℕ) (steps : List Step) (trail : Trail)
    → IsMonotone t steps
    → Holds t trail
    → KeepsRetention (run steps trail)
unfolding run
run-Holds t [] trail m holds = holds.0
run-Holds t (s ∷ steps) trail m holds =
    run-Holds (time_of s) steps (step s trail) m.1 (step-Holds t s trail m.0 holds)

-- After the daemon's pass, whatever was written and pruned before with a clock that does not run
-- backwards, no row is older than the retention and one interval between prunes.
pub rows_expire :
    (steps : List Step) (now : ℕ)
    → IsMonotone 0 steps
    → All
        (λ (e : TrailRow). now < e.time + retention_seconds + prune_interval)
        (step (pass now) (run steps (record { events = []; last_prune = 0 }))).events
unfolding step
rows_expire steps now m =
    let keeps = run-Holds 0 steps (record { events = []; last_prune = 0 }) m (tt, omega arith) in
    let trail = run steps (record { events = []; last_prune = 0 }) in
    let (kept, soon) = maybe_prune-KeepsRetention now trail keeps in
    All-mono (λ (e : TrailRow). (maybe_prune now trail).1.last_prune ≤ e.time + retention_seconds)
      (λ (e : TrailRow). now < e.time + retention_seconds + prune_interval)
      (maybe_prune now trail).1.events (λ e in_time. omega arith) kept
