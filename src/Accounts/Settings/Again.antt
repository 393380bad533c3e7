-- ===== src/Accounts/Settings/Again.antt =====
-- Saving the same settings form twice.
use email_summary.Prelude.{
  String, ◌≡◌, refl, ap, ◌∙◌, Bool, true, false, Option, none, some, List, [], ◌∷◌, arith, eq_iff,
  inl, inr, Bool-cases, Option-cases,
}
use email_summary.Prelude.Text.{norm}
use email_summary.Accounts.Store.{
  ok, Entry, State, settings_area, is_entry, find_entry, edit_first, edit, entry_for, open_manifest,
  close_manifest,
}
use email_summary.Accounts.Register.{present}
use email_summary.Accounts.Keeps.{find_entry-edit_first}
use email_summary.Accounts.Settings.{
  Asked, Provider, asks_something, may_select, calendar_ok, saved_or_unchanged, changed_fields,
  prefer, set_settings, text_changed, flag_changed, calendar_changed, new_calendar,
}

edit_first_again :
    (f : Entry → Entry) (key : String) (entries : List Entry)
    → ((e : Entry) → f (f e) ≡ f e)
    → ((e : Entry) → (f e).id ≡ e.id)
    → edit_first key f (edit_first key f entries) ≡ edit_first key f entries
edit_first_again f key [] again keeps_id = refl
edit_first_again f key (e ∷ entries) again keeps_id = elim (Bool-cases (is_entry key e)) [
  | inl hit ↦
      let still : is_entry key (f e) ≡ true = rw (keeps_id e) hit in
      rw (hit, still) (ap (λ x. x ∷ entries) (again e))
  | inr miss ↦ rw (miss, miss) (ap (λ es. e ∷ es) (edit_first_again f key entries again keeps_id))
]

text_saved :
    (field : String) (asked stored d : Option String)
    → text_changed field asked (present (present asked stored) d) ≡ []
text_saved field none stored d = refl
text_saved field (some v) stored d = ground (arith, eq_iff v v)

text_stored :
    (field : String) (asked stored : Option String)
    → text_changed field asked (present asked stored) ≡ []
text_stored field none stored = refl
text_stored field (some v) stored = ground (arith, eq_iff v v)

flag_saved :
    (field : String) (asked stored d : Option Bool)
    → flag_changed field asked (present (present asked stored) d) ≡ []
flag_saved field none stored d = refl
flag_saved field (some true) stored d = refl
flag_saved field (some false) stored d = refl

calendar_saved :
    (asked stored : Option String) → calendar_changed asked (new_calendar asked stored) ≡ []
calendar_saved none stored = refl
calendar_saved (some c) stored = ground (arith, eq_iff (norm c) (norm c), eq_iff (norm c) "")

present_again {ℓ} : {A : Type ℓ} (a b : Option A) → present a (present a b) ≡ present a b
present_again none b = refl
present_again (some x) b = refl

calendar_again :
    (a stored : Option String) → new_calendar a (new_calendar a stored) ≡ new_calendar a stored
calendar_again none stored = refl
calendar_again (some c) stored = refl

nothing_changes : (a : Asked) (e : Entry) → changed_fields a (prefer a e) ≡ []
unfolding changed_fields prefer
nothing_changes a e =
    rw
      (
        text_saved "timezone" a.timezone e.timezone (some "UTC"),
        flag_saved "auto_schedule" a.auto_schedule e.auto_schedule (some false),
        text_stored "inference_provider" a.inference_provider e.inference_provider,
        flag_saved "pii_analyzer" a.pii_analyzer e.pii_analyzer (some true),
        flag_saved "ban_dashes" a.ban_dashes e.ban_dashes (some true),
        calendar_saved a.community_calendar e.community_calendar,
      )
      refl

prefer_again : (a : Asked) (e : Entry) → prefer a (prefer a e) ≡ prefer a e
unfolding prefer
prefer_again a e =
    rw
      (
        present_again a.timezone e.timezone,
        present_again a.auto_schedule e.auto_schedule,
        present_again a.inference_provider e.inference_provider,
        present_again a.pii_analyzer e.pii_analyzer,
        present_again a.ban_dashes e.ban_dashes,
        calendar_again a.community_calendar e.community_calendar,
      )
      refl

-- What a save with nothing wrong returns.
set_settings_at :
    (providers : List Provider) (account_id : String) (a : Asked) (s : State) (entries : List Entry)
    (old : Entry)
    → s.manifest ≡ some entries
    → find_entry (norm account_id) entries ≡ some old
    → asks_something a ≡ true
    → may_select providers a.inference_provider ≡ true
    → calendar_ok a.community_calendar ≡ true
    → set_settings providers account_id a s
      ≡ ok (
        prefer a old,
        close_manifest
            (edit account_id (prefer a) entries)
            (record {
              account = old.id;
              area = settings_area;
              outcome = saved_or_unchanged (changed_fields a old);
              fields = changed_fields a old;
            })
            s,
      )
unfolding set_settings open_manifest entry_for
set_settings_at providers account_id a s entries old there found asks may sound =
    let opened : open_manifest false s ≡ ok entries = rw (there, open_manifest) refl in
    let the_entry : entry_for account_id entries ≡ ok old = rw (found, entry_for) refl in
    rw (asks, may, opened, the_entry, sound) refl

-- Where a save returned, the same save again returns the same entry, leaves the manifest as it is,
-- and its one audit row says that nothing changed.
pub set_settings_again :
    (providers : List Provider) (account_id : String) (a : Asked) (s s' : State) (e : Entry)
    → set_settings providers account_id a s ≡ ok (e, s')
    → set_settings providers account_id a s'
      ≡ ok (
        e,
        record {
          manifest = s'.manifest;
          log =
              record { account = e.id; area = settings_area; outcome = "unchanged"; fields = [] }
              ∷ s'.log;
        },
      )
unfolding set_settings
set_settings_again providers account_id a s s' e h = elim (Option-cases s.manifest) [
  | inl missing ↦ absurd (ground arith)
  | inr (entries, there) ↦ elim (Option-cases (find_entry (norm account_id) entries)) [
    | inl nobody ↦ absurd (ground arith)
    | inr (old, found) ↦
        let key = norm account_id in
        let asks : asks_something a ≡ true = ground arith in
        let may : may_select providers a.inference_provider ≡ true = ground arith in
        let sound : calendar_ok a.community_calendar ≡ true = ground arith in
        let same : e ≡ prefer a old = ground arith in
        let now : s'.manifest ≡ some (edit_first key (prefer a) entries) = ground arith in
        let found' : find_entry key (edit_first key (prefer a) entries) ≡ some (prefer a old) =
          rw
            (find_entry-edit_first (prefer a) (unfold prefer in (λ x. refl)) key key entries, found)
            (ground (arith, eq_iff key key)) in
        set_settings_at providers account_id a s' (edit_first key (prefer a) entries) (prefer a old)
          now found' asks may sound
        ∙ rw (nothing_changes a old, prefer_again a old, same)
            (rw
              (
                edit_first_again (prefer a) key entries (prefer_again a)
                    (unfold prefer in (λ x. refl)),
                now,
              )
              refl)
  ]
]
