-- ===== src/Scheduler/Passes.antt =====
-- Passes over the schedule: a first pass runs nothing it has just seeded, and no job runs twice for
-- one firing.
use email_summary.Prelude.{
  String, ◌≡◌, refl, ◌∙◌, Bool, true, false, none, some, List, [], ◌∷◌, str_eq, eq_iff,
  if◌then◌else◌, is_some, some_pass, select, All, All-mono, arith, inl, inr, Bool-cases,
  Option-cases,
}
use email_summary.Scheduler.{
  Moment, at_or_before, Cadence, next_after, Job, Marks, last_run, set_mark, passed, is_due, due,
  seed, mark_ran, tick,
}
use email_summary.Scheduler.Next.{next_after_is_next}

-- A job that ran at `last` is not due at any moment up to then.
passed_later :
    (c : Cadence) (last now : Moment)
    → at_or_before now last ≡ true
    → passed (next_after c last) now ≡ false
passed_later c last now h = elim (Option-cases (next_after c last)) [
  | inl never ↦ rw never refl
  | inr (x, at) ↦ let later = (next_after_is_next c last x at).0 in rw at (ground arith)
]

last_run-set_mark :
    (name other : String) (t : Moment) (marks : Marks)
    → last_run other (set_mark name t marks)
      ≡ (if str_eq name other then some t else last_run other marks)
last_run-set_mark name other t [] = refl
last_run-set_mark name other t (x ∷ marks) = ground (
  arith,
  last_run-set_mark name other t marks,
  eq_iff (x.0) name,
  eq_iff name other,
  eq_iff (x.0) other,
)

abbrev named : String → List Job → Bool
named name = some_pass (λ (job : Job). str_eq job.name name)

last_run-seed :
    (name : String) (jobs : List Job) (now : Moment) (marks : Marks)
    → last_run name (seed jobs now marks) ≡ (
        if is_some (last_run name marks)
        then last_run name marks
        else if named name jobs
        then some now
        else none)
last_run-seed name [] now marks = ground (arith, Option-cases (last_run name marks))
last_run-seed name (job ∷ jobs) now marks = ground (
  arith,
  last_run-seed name jobs now marks,
  last_run-set_mark job.name name now (seed jobs now marks),
  eq_iff job.name name,
)

is_due-seed :
    (jobs : List Job) (now : Moment) (marks : Marks) (job : Job)
    → is_due now (seed jobs now marks) job ≡ is_due now marks job
unfolding is_due
is_due-seed jobs now marks job =
    let mark = last_run-seed job.name jobs now marks in
    elim (Option-cases (last_run job.name marks)) [
      | inr (last, there) ↦ rw (is_due, mark, there) refl
      | inl fresh ↦ elim (Bool-cases (named job.name jobs)) [
        | inl listed ↦
            rw (is_due, mark, fresh, listed) (passed_later job.cadence now now (ground arith))
        | inr unknown ↦ rw (is_due, mark, fresh, unknown) refl
      ]
    ]

last_run-mark_ran :
    (ended : String → Moment) (name : String) (ran : List Job) (marks : Marks)
    → last_run name (mark_ran ended ran marks)
      ≡ (if named name ran then some (ended name) else last_run name marks)
last_run-mark_ran ended name [] marks = refl
last_run-mark_ran ended name (job ∷ ran) marks =
    last_run-mark_ran ended name ran (set_mark job.name (ended job.name) marks)
    ∙ rw (last_run-set_mark job.name name (ended job.name) marks)
        (ground (arith, eq_iff job.name name))

select-congr :
    (p q : Job → Bool) (jobs : List Job)
    → ((job : Job) → p job ≡ q job)
    → select p jobs ≡ select q jobs
select-congr p q [] h = refl
select-congr p q (job ∷ jobs) h = ground (arith, h job, select-congr p q jobs h)

-- A pass runs the jobs that are due by the marks it finds: a job without a mark is given one and
-- does not run.
pub tick_ran :
    (jobs : List Job) (now : Moment) (ended : String → Moment) (marks : Marks)
    → (tick jobs now ended marks).0 ≡ due jobs now marks
unfolding tick
tick_ran jobs now ended marks =
    select-congr (is_due now (seed jobs now marks)) (is_due now marks) jobs
      (is_due-seed jobs now marks)

IsListed : (List Job) → (Job → Bool) → Job → Type 0
IsListed ran p job = p job ≡ true → named job.name ran ≡ true

listed : (p : Job → Bool) (jobs : List Job) → All (IsListed (select p jobs) p) jobs
unfolding IsListed
listed p [] = tt
listed p (job ∷ jobs) = (
  (λ h. rw h (ground (arith, eq_iff job.name job.name))),
  All-mono (IsListed (select p jobs) p) (IsListed (select p (job ∷ jobs)) p) jobs
      (λ x f h. ground (arith, f h)) (listed p jobs),
)

none_due :
    (now : Moment) (ended : String → Moment) (ran js : List Job) (marks : Marks)
    → ((name : String) → at_or_before now (ended name) ≡ true)
    → All (IsListed ran (is_due now marks)) js
    → due js now (mark_ran ended ran marks) ≡ []
unfolding is_due IsListed
none_due now ended ran [] marks e h = refl
none_due now ended ran (job ∷ js) marks e h =
    let mark = last_run-mark_ran ended job.name ran marks in
    let rest = none_due now ended ran js marks e h.1 in
    let later = passed_later job.cadence (ended job.name) now (e job.name) in
    let quiet : is_due now (mark_ran ended ran marks) job ≡ false =
      elim (Bool-cases (named job.name ran)) [
        | inl did_run ↦ rw (is_due, mark, did_run) later
        | inr idle ↦ elim (Bool-cases (is_due now marks job)) [
          | inl is_one ↦ absurd (ground (arith, h.0 is_one))
          | inr not_one ↦ rw (is_due, mark, idle) not_one
        ]
      ] in
    rw quiet rest

-- A pass at the moment of the last one, whose runs ended no earlier, runs nothing: no job runs twice
-- for one firing.
pub tick_again :
    (jobs : List Job) (now : Moment) (ended again : String → Moment) (marks : Marks)
    → ((name : String) → at_or_before now (ended name) ≡ true)
    → (tick jobs now again (tick jobs now ended marks).1).0 ≡ []
tick_again jobs now ended again marks e =
    tick_ran jobs now again (tick jobs now ended marks).1
    ∙ unfold tick in
      none_due now ended (due jobs now (seed jobs now marks)) jobs (seed jobs now marks) e
        (listed (is_due now (seed jobs now marks)) jobs)
