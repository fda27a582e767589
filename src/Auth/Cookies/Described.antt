-- ===== src/Auth/Cookies/Described.antt =====
-- What a header of cookies says, and what is read of it.
use waw_discord_bot.Prelude.{
  ℕ, ◌≡◌, ◌≢◌, ◌≤◌, ◌⊎◌, ◌↔◌, ◌∙◌, refl, ap, sym, subst, true, Option, none, some, List, [], ◌∷◌,
  ◌++◌, All, all, length, arith, Option-cases, inl, inr,
}
use waw_discord_bot.Kbo.Identifiers.{is_alphanumeric, is_digit}
use waw_discord_bot.Auth.Cookies.{
  Chars, split, parse_segment, is_token_char, is_valid_credential, session_of, valid_session,
  missing, invalid, present, session_cookie_name, read_session_credential,
}
use waw_discord_bot.Auth.Cookies.Laws.{
  named, pairs_of, pairs_in, listed, credential_of, read_session_credential-eq,
}
use waw_discord_bot.Auth.Cookies.Segments.{
  is_within, split-within, split-append_within, split-cases,
}
use waw_discord_bot.Auth.Cookies.Pairs.{IsPair, parse_segment-IsPair, IsPair-parse_segment}

-- A header says pairs: its parts between semicolons are pairs, in their order.
abbrev pub Says : List (Chars × Chars) → Chars → Type 0
Says [] header = ⊥
Says ((name, value) ∷ []) header = (all is_within header ≡ true) × IsPair header name value
Says ((name, value) ∷ pair ∷ pairs) header =
    (segment : Chars) × (rest : Chars) × (header ≡ segment ++ (b';' ∷ rest))
    × (all is_within segment ≡ true)
    × IsPair segment name value
    × Says (pair ∷ pairs) rest

-- A letter or a digit of ASCII, `_` or `-`.
abbrev pub IsTokenChar : ℕ → Type 0
IsTokenChar c =
    ((65 ≤ c) × (c ≤ 90))
    ⊎ (((97 ≤ c) × (c ≤ 122)) ⊎ (((48 ≤ c) × (c ≤ 57)) ⊎ ((c ≡ 95) ⊎ (c ≡ 45))))

-- 32 to 128 of them.
abbrev pub IsCredential : Chars → Type 0
IsCredential raw = All IsTokenChar raw × (32 ≤ length raw) × (length raw ≤ 128)

is_token_char-IsTokenChar_iff : (c : ℕ) → (is_token_char c ≡ true) ↔ IsTokenChar c
unfolding is_token_char is_alphanumeric is_digit
is_token_char-IsTokenChar_iff c = ground arith

token_chars_iff : (s : Chars) → (all is_token_char s ≡ true) ↔ All IsTokenChar s
token_chars_iff [] = (λ h. tt, λ h. refl)
token_chars_iff (c ∷ cs) = ground (arith, is_token_char-IsTokenChar_iff c, token_chars_iff cs)

is_valid_credential-IsCredential_iff :
    (raw : Chars) → (is_valid_credential raw ≡ true) ↔ IsCredential raw
unfolding is_valid_credential
is_valid_credential-IsCredential_iff raw = ground (arith, token_chars_iff raw)

pairs_of-within :
    (header : Chars) (pairs : List (Chars × Chars))
    → pairs_of (header ∷ []) ≡ some pairs
    → (pair : Chars × Chars) × (parse_segment header ≡ some pair) × (pair ∷ [] ≡ pairs)
unfolding pairs_of
pairs_of-within header pairs h = elim (Option-cases (parse_segment header)) [
  | inl bad ↦ absurd (ground arith)
  | inr (pair, good) ↦ (pair, good, ground arith)
]

pairs_of-append :
    (segment : Chars) (segments : List Chars) (pairs : List (Chars × Chars))
    → pairs_of (segment ∷ segments) ≡ some pairs
    → (pair : Chars × Chars) × (others : List (Chars × Chars)) × (parse_segment segment ≡ some pair)
      × (pairs_of segments ≡ some others)
      × (pair ∷ others ≡ pairs)
unfolding pairs_of
pairs_of-append segment segments pairs h = elim (Option-cases (parse_segment segment)) [
  | inl bad ↦ absurd (ground arith)
  | inr (pair, good) ↦ elim (Option-cases (pairs_of segments)) [
    | inl bad ↦ absurd (ground arith)
    | inr (others, fine) ↦ (pair, others, good, fine, ground arith)
  ]
]

first_of : {x y : Chars × Chars} {xs ys : List (Chars × Chars)} → (x ∷ xs) ≡ (y ∷ ys) → x ≡ y
first_of h = cc

rest_of : {x y : Chars × Chars} {xs ys : List (Chars × Chars)} → (x ∷ xs) ≡ (y ∷ ys) → xs ≡ ys
rest_of h = cc

is_pair :
    {segment : Chars} {pair : Chars × Chars} (name value : Chars)
    → parse_segment segment ≡ some pair
    → pair ≡ (name, value)
    → IsPair segment name value
is_pair {segment} name value good same =
    parse_segment-IsPair segment name value (good ∙ ap (λ x. some x) same)

split-Says :
    (pairs : List (Chars × Chars)) (header : Chars)
    → pairs_of (split b';' header) ≡ some pairs
    → Says pairs header
split-Says [] header h = elim (split-cases header) [
  | inl within ↦
      let (pair, good, made) = pairs_of-within header [] (rw (split-within header within) at h) in
      absurd (cc)
  | inr (part, rest, same, within) ↦
      let (pair, others, good, fine, made) =
        pairs_of-append part (split b';' rest) []
          (rw (same, split-append_within part rest within) at h) in
      absurd (cc)
]
split-Says ((name, value) ∷ []) header h = elim (split-cases header) [
  | inl within ↦
      let (pair, good, made) = pairs_of-within header _ (rw (split-within header within) at h) in
      (within, is_pair name value good (first_of made))
  | inr (part, rest, same, within) ↦
      let (pair, others, good, fine, made) =
        pairs_of-append part (split b';' rest) _
          (rw (same, split-append_within part rest within) at h) in
      absurd (split-Says [] rest (fine ∙ ap (λ x. some x) (rest_of made)))
]
split-Says ((name, value) ∷ pair' ∷ pairs) header h = elim (split-cases header) [
  | inl within ↦
      let (pair, good, made) = pairs_of-within header _ (rw (split-within header within) at h) in
      absurd (cc)
  | inr (part, rest, same, within) ↦
      let (pair, others, good, fine, made) =
        pairs_of-append part (split b';' rest) _
          (rw (same, split-append_within part rest within) at h) in
      (
        part,
        rest,
        same,
        within,
        is_pair name value good (first_of made),
        split-Says (pair' ∷ pairs) rest (fine ∙ ap (λ x. some x) (rest_of made)),
      )
]

Says-split :
    (pairs : List (Chars × Chars)) (header : Chars)
    → Says pairs header
    → pairs_of (split b';' header) ≡ some pairs
unfolding pairs_of
Says-split [] header h = absurd h
Says-split ((name, value) ∷ []) header (within, pair) =
    rw (split-within header within, IsPair-parse_segment header name value pair) refl
Says-split ((name, value) ∷ next ∷ pairs) header (part, rest, same, within, pair, more) =
    rw
      (
        same,
        split-append_within part rest within,
        IsPair-parse_segment part name value pair,
        Says-split (next ∷ pairs) rest more,
      )
      refl

valid_session-present :
    (v raw : Chars) → (valid_session (some v) ≡ present raw) ↔ ((v ≡ raw) × IsCredential raw)
unfolding valid_session
valid_session-present v raw =
    ground (arith, is_valid_credential-IsCredential_iff v, is_valid_credential-IsCredential_iff raw)

valid_session-missing : (v : Chars) → valid_session (some v) ≢ missing
unfolding valid_session
valid_session-missing v = ground arith

valid_session-none : valid_session none ≡ invalid
unfolding valid_session
valid_session-none = refl

listed-present :
    (vs : List Chars) (raw : Chars)
    → (session_of (listed vs) ≡ present raw) ↔ ((vs ≡ raw ∷ []) × IsCredential raw)
listed-present [] raw = (λ h. absurd (cc), λ (same, fine). absurd (cc))
listed-present (v ∷ []) raw = (
  λ h. let (same, fine) = (valid_session-present v raw).0 h in (ap (λ x. x ∷ []) same, fine),
  λ (same, fine). (valid_session-present v raw).1 (cc, fine),
)
listed-present (v ∷ w ∷ vs) raw =
    (λ h. absurd (let bad = sym valid_session-none ∙ h in cc), λ (same, fine). absurd (cc))

listed-missing : (vs : List Chars) → (session_of (listed vs) ≡ missing) ↔ (vs ≡ [])
listed-missing [] = (λ h. refl, λ h. refl)
listed-missing (v ∷ []) = (λ h. absurd (valid_session-missing v h), λ h. absurd (cc))
listed-missing (v ∷ w ∷ vs) =
    (λ h. absurd (let bad = sym valid_session-none ∙ h in cc), λ h. absurd (cc))

credential_of-present :
    (m : Option (List (Chars × Chars))) (raw : Chars)
    → (credential_of m ≡ present raw) ↔ (
        (pairs : List (Chars × Chars)) × (m ≡ some pairs)
        × (named session_cookie_name pairs ≡ raw ∷ [])
        × IsCredential raw)
credential_of-present none raw = (λ h. absurd (cc), λ (pairs, m, same, fine). absurd (cc))
credential_of-present (some found) raw = (
  λ h.
      let (same, fine) = (listed-present (named session_cookie_name found) raw).0 h in
      (found, refl, same, fine),
  λ (pairs, m, same, fine).
      let told : pairs ≡ found = cc in
      (listed-present (named session_cookie_name found) raw).1
        (subst (λ ps. named session_cookie_name ps ≡ raw ∷ []) told same, fine),
)

credential_of-missing :
    (m : Option (List (Chars × Chars)))
    → (credential_of m ≡ missing)
      ↔ ((pairs : List (Chars × Chars)) × (m ≡ some pairs) × (named session_cookie_name pairs ≡ []))
credential_of-missing none = (λ h. absurd (cc), λ (pairs, m, same). absurd (cc))
credential_of-missing (some found) = (
  λ h. (found, refl, (listed-missing (named session_cookie_name found)).0 h),
  λ (pairs, m, same).
      let told : pairs ≡ found = cc in
      (listed-missing (named session_cookie_name found)).1
        (subst (λ ps. named session_cookie_name ps ≡ []) told same),
)

-- A header is read as a credential exactly if its parts between semicolons are all pairs, each
-- white space around a name, an equals sign and a value, and the credential is the only value of
-- the session cookie's name among them and has 32 to 128 letters, digits, underscores and
-- hyphens; and it is read as missing exactly if its parts are all pairs and none has that name.
pub read_session_credential_iff :
    (header raw : Chars)
    → ((read_session_credential (some header) ≡ present raw) ↔ (
        (pairs : List (Chars × Chars)) × Says pairs header
        × (named session_cookie_name pairs ≡ raw ∷ [])
        × IsCredential raw))
      × ((read_session_credential (some header) ≡ missing) ↔ (
          (pairs : List (Chars × Chars)) × Says pairs header
          × (named session_cookie_name pairs ≡ [])))
read_session_credential_iff header raw =
    let read_as = read_session_credential-eq header in
    (
      (
        λ h.
            let (pairs, m, same, fine) =
              (credential_of-present (pairs_in header) raw).0 (sym read_as ∙ h) in
            (pairs, split-Says pairs header m, same, fine),
        λ (pairs, says, same, fine).
            read_as
            ∙ (credential_of-present (pairs_in header) raw).1
                (pairs, Says-split pairs header says, same, fine),
      ),
      (
        λ h.
            let (pairs, m, same) = (credential_of-missing (pairs_in header)).0 (sym read_as ∙ h) in
            (pairs, split-Says pairs header m, same),
        λ (pairs, says, same).
            read_as
            ∙ (credential_of-missing (pairs_in header)).1
                (pairs, Says-split pairs header says, same),
      ),
    )
