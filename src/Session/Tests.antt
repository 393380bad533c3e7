-- ===== src/Session/Tests.antt =====
-- Runs of the signed cookies at concrete inputs.
use Prim.Native.Char.{Char, code}
use Prim.Native.String.{◌++◌}
use text.Mathlib.TextLemmas.{append_cancel_left}
use text.Mathlib.TextEquality.{Char-path}
use email_summary.Prelude.{
  ℕ, ◌+◌, ◌≤◌, String, ◌≡◌, ◌≢◌, refl, ap, ◌∙◌, sym, true, false, some, none, [], ◌∷◌, arith,
  if◌then◌else◌, ◌==◌, inl, inr, Bool-cases, All,
}
use email_summary.Prelude.Text.{strip}
use email_summary.Prelude.Split.{split, join, is_free}
use email_summary.Prelude.Decimal.{show, read}
use email_summary.Session.{
  Crypto, Ring, keyring, key_for, signed, open_signed, open_fields, check_sig, session_ttl, render,
  states, colon, payload, mac_of,
}
use email_summary.Session.Signed.{open_signed-signed, open_signed_sound, open_signed_one_purpose}
use email_summary.Session.Pending.{IsEntry}

-- A text with its colons written another way.
unfoldable escaped : String → String
escaped String.[] = String.[]
escaped (String.◌∷◌ c s) =
    let rest = escaped s in
    if code c == code ":" then String.◌∷◌ "1" rest else String.◌∷◌ "0" (String.◌∷◌ c rest)

escaped-is_free : (s : String) → is_free ":" (escaped s) ≡ true
unfolding escaped
escaped-is_free String.[] = refl
escaped-is_free (String.◌∷◌ c s) = elim (Bool-cases (code c == code ":")) [
  | inl colon ↦ rw (colon, escaped-is_free s) refl
  | inr other ↦ rw (other, escaped-is_free s) (rw other refl)
]

colon_escaped :
    (c : Char) (s : String)
    → (code c == code ":") ≡ true
    → escaped (String.◌∷◌ c s) ≡ String.◌∷◌ "1" (escaped s)
unfolding escaped
colon_escaped c s h = rw h refl

other_escaped :
    (c : Char) (s : String)
    → (code c == code ":") ≡ false
    → escaped (String.◌∷◌ c s) ≡ String.◌∷◌ "0" (String.◌∷◌ c (escaped s))
unfolding escaped
other_escaped c s h = rw h refl

abbrev first_code : String → ℕ
first_code String.[] = 0
first_code (String.◌∷◌ c s) = code c

tags_differ : (s t : String) → String.◌∷◌ "1" s ≢ String.◌∷◌ "0" t
tags_differ s t h = omega (arith, ap first_code h)

escaped_injective : (s t : String) → escaped s ≡ escaped t → s ≡ t
unfolding escaped
escaped_injective String.[] String.[] h = refl
escaped_injective String.[] (String.◌∷◌ d t) h = elim (Bool-cases (code d == code ":")) [
  | inl b ↦
      let h' : String.◌∷◌ "1" (escaped t) ≡ String.[] = sym (h ∙ colon_escaped d t b) in absurd cc
  | inr b ↦
      let h' : String.◌∷◌ "0" (String.◌∷◌ d (escaped t)) ≡ String.[] =
        sym (h ∙ other_escaped d t b) in
      absurd cc
]
escaped_injective (String.◌∷◌ c s) String.[] h = elim (Bool-cases (code c == code ":")) [
  | inl a ↦ let h' = sym (colon_escaped c s a) ∙ h in absurd cc
  | inr a ↦ let h' = sym (other_escaped c s a) ∙ h in absurd cc
]
escaped_injective (String.◌∷◌ c s) (String.◌∷◌ d t) h = elim (Bool-cases (code c == code ":")) [
  | inl a ↦ elim (Bool-cases (code d == code ":")) [
    | inl b ↦
        let h' = sym (colon_escaped c s a) ∙ h ∙ colon_escaped d t b in
        let ih = escaped_injective s t (ground arith) in
        let same : c ≡ d = Char-path c d (ground arith) in cc
    | inr b ↦ absurd (
        tags_differ (escaped s) (String.◌∷◌ d (escaped t))
          (sym (colon_escaped c s a) ∙ h ∙ other_escaped d t b))
  ]
  | inr a ↦ elim (Bool-cases (code d == code ":")) [
    | inl b ↦ absurd (
        tags_differ (escaped t) (String.◌∷◌ c (escaped s))
          (sym (sym (other_escaped c s a) ∙ h ∙ colon_escaped d t b)))
    | inr b ↦
        let h' = sym (other_escaped c s a) ∙ h ∙ other_escaped d t b in
        ground (arith, escaped_injective s t)
  ]
]

abbrev plain : Crypto
plain = record { mac = λ key message. escaped (key ++ message); kid = λ key. key }

abbrev ring : Ring
ring = record { kid = "k1"; key = "k1"; previous = none }

-- The ring after the next key came in.
abbrev rotated : Ring
rotated = record { kid = "k2"; key = "k2"; previous = some ("k1", "k1") }

empty_key_raises : keyring plain "" none ≡ none
unfolding keyring
empty_key_raises = refl

abbrev token : String
token = "k1:a:100:0k010c0s0r0f10k0110a1010000"

token_text : signed plain ring "csrf" "a" 100 ≡ token
unfolding signed show escaped
token_text = refl

token_opens : open_signed plain ring 200 "csrf" token session_ttl ≡ some "a"
unfolding open_signed open_fields check_sig show read escaped split join strip
token_opens = refl

late_token : open_signed plain ring 3_000_000 "csrf" token session_ttl ≡ none
unfolding open_signed open_fields check_sig show read escaped split join strip
late_token = refl

other_purpose : open_signed plain ring 200 "session" token session_ttl ≡ none
unfolding open_signed open_fields check_sig show read escaped split join strip
other_purpose = refl

edited_value :
    open_signed plain ring 200 "csrf" "k1:b:100:0k010c0s0r0f10k0110a1010000" session_ttl ≡ none
unfolding open_signed open_fields check_sig show read escaped split join strip
edited_value = refl

open_signed-signed_example :
    open_signed plain rotated 200 "csrf" (signed plain ring "csrf" "a" 100) session_ttl ≡ some "a"
open_signed-signed_example =
    open_signed-signed plain ring rotated "csrf" "a" 100 200 session_ttl
      (λ key message. escaped-is_free (key ++ message)) refl refl (omega arith)

open_signed_sound_example :
    (kid : String) × (key : String) × (stamp : String) × (iat : ℕ) × (key_for ring kid ≡ some key)
    × (read stamp ≡ some iat)
    × (200 ≤ iat + session_ttl)
    × (token ≡ colon kid (colon "a" (colon stamp (mac_of plain key "csrf" (payload kid "a" iat)))))
open_signed_sound_example =
    open_signed_sound plain ring 200 "csrf" token "a" session_ttl token_opens

token_opens_later : open_signed plain ring 300 "csrf" token 400 ≡ some "a"
unfolding open_signed open_fields check_sig show read escaped split join strip
token_opens_later = refl

abbrev purpose : String
purpose = "csrf"

open_signed_one_purpose_example : purpose ≡ purpose
open_signed_one_purpose_example =
    open_signed_one_purpose plain ring 200 300 "csrf" "csrf" token "a" "a" session_ttl 400
      (λ key m m' h. append_cancel_left key m m' (escaped_injective (key ++ m) (key ++ m') h))
      token_opens token_opens_later

abbrev first_state : String
first_state = signed plain ring "oauth-state" "s" 100

abbrev second_state : String
second_state = signed plain ring "oauth-state" "t" 120

abbrev two_states : String
two_states = render (second_state ∷ first_state ∷ [])

entries : All (IsEntry plain ring 200 states) (second_state ∷ first_state ∷ [])
unfolding signed open_signed open_fields check_sig show read escaped split join strip
entries = ((refl, refl, refl), ((refl, refl, refl), tt))
