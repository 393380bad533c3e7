-- ===== src/Scheduler/Next.antt =====
-- The next firing of a cadence.
use email_summary.Prelude.{
  ℕ, zero, suc, ◌+◌, ◌-◌, ◌*◌, ◌/◌, ◌%◌, ◌≤◌, ◌<◌, ◌≡◌, refl, true, false, some, List, ◌∷◌, ◌==◌,
  is_some, arith, inl, inr, Bool-cases, Option-cases, List-cases,
}
use email_summary.Scheduler.{
  Moment, before, at_or_before, Cadence, below, is_cadence, fires, at_hour, search, horizon_hours,
  next_after,
}

-- No firing of the cadence from the hour `from` on lies after `m` and before the hour `x`.
abbrev pub IsFirst : Cadence → Moment → ℕ → ℕ → Type 0
IsFirst c m from x = (k : ℕ) → from ≤ k → k < x → before m (at_hour c k) ≡ true → fires c k ≡ false

same : (a b : ℕ) → (a == b) ≡ true → a ≡ b
same a b h = ground arith

search-IsFirst :
    (n : ℕ) (c : Cadence) (m x : Moment) (step : ℕ)
    → search n c m step ≡ some x
    → (before m x ≡ true)
      × (fires c x.hour ≡ true)
      × (x.offset ≡ c.minute * 60_000_000)
      × IsFirst c m (m.hour + step) x.hour
unfolding search
search-IsFirst zero c m x step h = cc
search-IsFirst (suc n) c m x step h =
    elim (Bool-cases (at_or_before (at_hour c (m.hour + step)) m)) [
      | inl early ↦
          let rest : search n c m (suc step) ≡ some x = ground arith in
          let (later, firing, at, first) = search-IsFirst n c m x (suc step) rest in
          (
            later,
            firing,
            at,
            (λ k a b t. elim (Bool-cases (k == m.hour + step)) [
              | inl here ↦ absurd (ground arith)
              | inr above ↦ first k (ground arith) b t
            ]),
          )
      | inr late ↦ elim (Bool-cases (fires c (m.hour + step))) [
        | inr silent ↦
            let rest : search n c m (suc step) ≡ some x = ground arith in
            let (later, firing, at, first) = search-IsFirst n c m x (suc step) rest in
            (
              later,
              firing,
              at,
              (λ k a b t. elim (Bool-cases (k == m.hour + step)) [
                | inl here ↦ rw ((same k (m.hour + step)) here) silent
                | inr above ↦ first k (ground arith) b t
              ]),
            )
        | inl firing ↦
            let found : x ≡ at_hour c (m.hour + step) = ground arith in
            rw found (ground arith, firing, refl, (λ k a b t. absurd (omega arith)))
      ]
    ]

search-is_some :
    (n : ℕ) (c : Cadence) (m : Moment) (step k : ℕ)
    → step ≤ k
    → k < step + n
    → before m (at_hour c (m.hour + k)) ≡ true
    → fires c (m.hour + k) ≡ true
    → is_some (search n c m step) ≡ true
unfolding search
search-is_some zero c m step k a b t f = absurd (omega arith)
search-is_some (suc n) c m step k a b t f = elim (Bool-cases (step == k)) [
  | inl here ↦ rw (same step k here, t, f) refl
  | inr below_k ↦
      let rest = search-is_some n c m (suc step) k (ground arith) (omega arith) t f in
      elim (Bool-cases (at_or_before (at_hour c (m.hour + step)) m)) [
        | inl early ↦ rw early rest
        | inr late ↦ elim (Bool-cases (fires c (m.hour + step))) [
          | inl firing ↦ rw (late, firing) refl
          | inr silent ↦ rw (late, silent) rest
        ]
      ]
]

hour_of_week :
    (start h w : ℕ)
    → h < 24
    → w < 7
    → (k : ℕ) × (0 < k) × (k < 192) × ((start + k) % 24 ≡ h) × ((start + k) / 24 % 7 ≡ w)
hour_of_week start h w a b = (
  1 + (24 * w + h + 168 - (start + 1) % 168) % 168,
  omega arith,
  omega arith,
  omega arith,
  omega arith,
)

-- `next_after` answers a firing of the cadence strictly after the moment, and no firing after the
-- moment comes before it.
pub next_after_is_next :
    (c : Cadence) (m x : Moment)
    → next_after c m ≡ some x
    → (before m x ≡ true)
      × (fires c x.hour ≡ true)
      × (x.offset ≡ c.minute * 60_000_000)
      × ((k : ℕ) → k < x.hour → before m (at_hour c k) ≡ true → fires c k ≡ false)
unfolding next_after
next_after_is_next c m x h =
    let (later, firing, at, first) = search-IsFirst horizon_hours c m x 0 h in
    (later, firing, at, (λ k b t. first k (ground arith) b t))

hours_below : (h : ℕ) (hs : List ℕ) → below 24 (h ∷ hs) ≡ true → h < 24
hours_below h hs b = ground arith

-- A cadence that the constructor accepts fires within the 192 hours that are searched, whatever the
-- moment, so `next_after` never ends in its error.
pub next_after_total :
    (c : Cadence) (m : Moment) → is_cadence c ≡ true → is_some (next_after c m) ≡ true
unfolding next_after
next_after_total c m ok = elim (List-cases c.hours) [
  | inl no_hours ↦ absurd (ground arith)
  | inr (h, hs, has) ↦ elim (Option-cases c.weekday) [
    | inl any_day ↦
        let (k, positive, inside, hour, day) =
          hour_of_week m.hour h 0 (ground arith) (omega arith) in
        search-is_some horizon_hours c m 0 k (omega arith) (omega arith) (ground arith)
          (rw (has, any_day) (ground arith))
    | inr (w, one_day) ↦
        let (k, positive, inside, hour, day) =
          hour_of_week m.hour h w (ground arith) (ground arith) in
        search-is_some horizon_hours c m 0 k (omega arith) (omega arith) (ground arith)
          (rw (has, one_day) (ground arith))
  ]
]
