-- ===== src/Daemon/Mailbox/History.antt =====
-- What the pages of a listing say, read as a whole, and that the loop over them finds it.
use email_summary.Prelude.{
  ℕ, String, ◌≡◌, refl, sym, ap, ◌∙◌, Option, none, some, List, [], ◌∷◌, ◌++◌, map, str_eq, arith,
  select, if◌then◌else◌, inl, inr, Bool-cases,
}
use email_summary.Prelude.Sets.{is_member}
use email_summary.Daemon.Mailbox.{
  Reply, http_error, replied, Listed, HistoryPage, Pages, ends, more, Listing, added_in, newest,
  read_history,
}
use email_summary.Daemon.Mailbox.Fetched.{Reply-cases, chain_replied, listing_of}

-- How the last call for a page ended.
abbrev pub ending : Pages → Reply HistoryPage
ending (ends reply) = reply
ending (more p pages) = ending pages

abbrev messages_in : Reply HistoryPage → List Listed
messages_in (replied p) = p.messages
messages_in _ = []

-- The messages of all pages.
abbrev pub messages_of : Pages → List Listed
messages_of (ends reply) = messages_in reply
messages_of (more p pages) = p.messages ++ messages_of pages

-- The ids of those in the inbox.
abbrev pub inbox_ids : List Listed → List String
inbox_ids ms = map (λ (m : Listed). m.id) (select (λ (m : Listed). is_member "INBOX" m.labels) ms)

abbrev or_before : Option String → String → String
or_before none before = before
or_before (some id) before = if str_eq id "" then before else id

abbrev named_in : Reply HistoryPage → String → String
named_in (replied p) before = or_before p.history_id before
named_in _ before = before

-- The last history id that a page names, and the cursor where none does.
abbrev pub last_named : Pages → String → String
last_named (ends reply) before = named_in reply before
last_named (more p pages) before = last_named pages (or_before p.history_id before)

newest-before :
    (id : Option String) (p : HistoryPage) (before : String)
    → p.history_id ≡ id
    → newest p before ≡ or_before id before
newest-before none p before h = rw h refl
newest-before (some id) p before h = elim (Bool-cases (str_eq id "")) [
  | inl empty ↦ rw (h, empty) refl
  | inr full ↦ rw (h, full) refl
]

inbox_ids-append : (xs ys : List Listed) → inbox_ids (xs ++ ys) ≡ inbox_ids xs ++ inbox_ids ys
inbox_ids-append [] ys = refl
inbox_ids-append (m ∷ xs) ys = elim (Bool-cases (is_member "INBOX" m.labels)) [
  | inl received ↦ rw received (ap (λ ids. m.id ∷ ids) (inbox_ids-append xs ys))
  | inr other ↦ rw other (inbox_ids-append xs ys)
]

added_in-inbox : (ms : List Listed) → added_in ms ≡ inbox_ids ms
added_in-inbox [] = refl
added_in-inbox (m ∷ ms) = elim (Bool-cases (is_member "INBOX" m.labels)) [
  | inl received ↦ rw received (ap (λ ids. m.id ∷ ids) (added_in-inbox ms))
  | inr other ↦ rw other (added_in-inbox ms)
]

-- A listing that is read is that of its pages.
pub read_history_listed :
    (pages : Pages) (before : String) (l : Listing)
    → read_history pages before ≡ replied l
    → ((p : HistoryPage) × (ending pages ≡ replied p))
      × (l.added ≡ inbox_ids (messages_of pages))
      × (l.latest ≡ last_named pages before)
unfolding read_history
read_history_listed (ends reply) before l h =
    let (p, there, made) = chain_replied reply _ l h in
    let same = listing_of made in
    (
      (p, there),
      ap (λ (x : Listing). x.added) (sym same)
          ∙ added_in-inbox p.messages
          ∙ ap (λ r. inbox_ids (messages_in r)) (sym there),
      ap (λ (x : Listing). x.latest) (sym same)
          ∙ newest-before p.history_id p before refl
          ∙ ap (λ r. named_in r before) (sym there),
    )
read_history_listed (more p pages) before l h =
    let (l', there, made) = chain_replied (read_history pages (newest p before)) _ l h in
    let same = listing_of made in
    let (answered, added, latest) = read_history_listed pages (newest p before) l' there in
    (
      answered,
      ap (λ (x : Listing). x.added) (sym same)
          ∙ ap (λ ids. ids ++ l'.added) (added_in-inbox p.messages)
          ∙ ap (λ ids. inbox_ids p.messages ++ ids) added
          ∙ sym (inbox_ids-append p.messages (messages_of pages)),
      ap (λ (x : Listing). x.latest) (sym same)
          ∙ latest
          ∙ ap (last_named pages) (newest-before p.history_id p before refl),
    )

-- A listing that is refused with a status was so at its last page.
pub read_history_refused :
    (pages : Pages) (before : String) (code : ℕ)
    → read_history pages before ≡ http_error code
    → ending pages ≡ http_error code
unfolding read_history
read_history_refused (ends reply) before code h = elim (Reply-cases reply) [
  | inl away ↦ absurd (ground arith)
  | inr (inl broke) ↦ absurd (ground arith)
  | inr (inr (inl (other, failed))) ↦ ground arith
  | inr (inr (inr (p, there))) ↦ absurd (ground arith)
]
read_history_refused (more p pages) before code h =
    elim (Reply-cases (read_history pages (newest p before))) [
      | inl away ↦ absurd (ground arith)
      | inr (inl broke) ↦ absurd (ground arith)
      | inr (inr (inl (other, failed))) ↦
          read_history_refused pages (newest p before) code (ground arith)
      | inr (inr (inr (l, there))) ↦ absurd (ground arith)
    ]
