-- ===== src/Auth/Csrf/Sent.antt =====
-- The header that a browser makes of the cookies of a credential, and how it is read.
use waw_discord_bot.Prelude.{
  ◌≡◌, ◌∙◌, refl, ap, true, Option, none, some, List, [], ◌∷◌, ◌++◌, all, ◌>>=◌,
}
use waw_discord_bot.Kbo.Identifiers.{codes}
use waw_discord_bot.Auth.Cookies.{
  Chars, CookieMap, get, split, parse_segment, parse_cookies, is_token_char, is_valid_credential,
  is_valid_csrf_token, session_cookie_name, csrf_cookie_name, read_session_credential,
  read_csrf_cookie_token, present, cut, is_name_char,
}
use waw_discord_bot.Auth.Cookies.Laws.{pairs_of, named, listed, get-parse_segments}
use waw_discord_bot.Auth.Cookies.Segments.{
  trim-inner, trim-space, split-space, split-append, token-inner, token-value,
}
use waw_discord_bot.Auth.Ports.{Node}
use waw_discord_bot.Auth.Csrf.{csrf_cookie, session_cookie_attributes, csrf_cookie_attributes}

-- A cookie is kept without its attributes, which its first `;` starts.
abbrev first_part : List Chars → Chars
first_part [] = []
first_part (part ∷ parts) = part

unfoldable kept : Chars → Chars
unfolding split
kept line = first_part (split b';' line)

-- The header that a browser makes of the cookies that were set.
unfoldable pub sent : List Chars → Chars
unfolding kept
sent [] = []
sent (line ∷ []) = kept line
sent (line ∷ lines) = kept line ++ (b';' ∷ b' ' ∷ sent lines)

abbrev pub session_pair : Chars → Chars
session_pair raw = session_cookie_name ++ (b'=' ∷ raw)

abbrev pub csrf_pair : Chars → Chars
csrf_pair token = csrf_cookie_name ++ (b'=' ∷ token)

found_values :
    (name : Chars) (m : Option CookieMap) {vs : List Chars}
    → (m >>= λ parsed. some (get name parsed)) ≡ some (some vs)
    → (parsed : CookieMap) × (m ≡ some parsed) × (get name parsed ≡ some vs)
found_values name none h = absurd (cc)
found_values name (some parsed) h = (parsed, refl, cc)

module _ (raw token : Chars) (raw_ok : all is_token_char raw ≡ true)
    (token_ok : all is_token_char token ≡ true) where
  pub sent-two :
      sent (
        (session_cookie_name ++ (b'=' ∷ (raw ++ session_cookie_attributes)))
        ∷ (csrf_cookie_name ++ (b'=' ∷ (token ++ csrf_cookie_attributes)))
        ∷ [])
      ≡ session_pair raw ++ (b';' ∷ b' ' ∷ csrf_pair token)
  unfolding sent kept
  sent-two =
      rw
        (
          split-append (session_pair raw) (codes " Path=/; Secure; HttpOnly; SameSite=Lax")
              (token-inner raw raw_ok),
          split-append (csrf_pair token) (codes " Path=/; Secure; SameSite=Strict")
              (token-inner token token_ok),
        )
        refl

  parse_segment-session : parse_segment (session_pair raw) ≡ some (session_cookie_name, raw)
  unfolding parse_segment cut is_name_char
  parse_segment-session =
      rw (trim-inner (session_pair raw) (token-inner raw raw_ok), token-value raw raw_ok) refl

  parse_segment-csrf : parse_segment (b' ' ∷ csrf_pair token) ≡ some (csrf_cookie_name, token)
  unfolding parse_segment cut is_name_char
  parse_segment-csrf =
      rw
        (
          trim-space (csrf_pair token),
          trim-inner (csrf_pair token) (token-inner token token_ok),
          token-value token token_ok,
        )
        refl

  pairs_of-sent :
      pairs_of (split b';' (session_pair raw ++ (b';' ∷ b' ' ∷ csrf_pair token)))
      ≡ some ((session_cookie_name, raw) ∷ (csrf_cookie_name, token) ∷ [])
  unfolding pairs_of
  pairs_of-sent =
      rw
        (
          split-append (session_pair raw) (b' ' ∷ csrf_pair token) (token-inner raw raw_ok),
          split-space (csrf_pair token) (token-inner token token_ok),
          parse_segment-session,
          parse_segment-csrf,
        )
        refl

  -- The map that is read of the header, and its values of a name.
  parsed_values :
      (name : Chars) (vs : List Chars)
      → listed (named name ((session_cookie_name, raw) ∷ (csrf_cookie_name, token) ∷ [])) ≡ some vs
      → (parsed : CookieMap) × (parse_cookies
            (some (session_pair raw ++ (b';' ∷ b' ' ∷ csrf_pair token)))
          ≡ some parsed)
        × (get name parsed ≡ some vs)
  unfolding parse_cookies get
  parsed_values name vs h = found_values name _ (
      get-parse_segments name (split b';' (session_pair raw ++ (b';' ∷ b' ' ∷ csrf_pair token))) []
        [] refl
      ∙ rw (pairs_of-sent) (ap some h))

  pub credential_kept :
      is_valid_credential raw ≡ true
      → read_session_credential (some (session_pair raw ++ (b';' ∷ b' ' ∷ csrf_pair token)))
        ≡ present raw
  unfolding read_session_credential named
  credential_kept valid =
      let (parsed, read_as, values) = parsed_values session_cookie_name (raw ∷ []) refl in
      rw (read_as, values, valid, read_session_credential) refl

  pub csrf_kept :
      (node : Node) (csrf_key : Chars)
      → csrf_cookie node csrf_key (some (session_pair raw ++ (b';' ∷ b' ' ∷ csrf_pair token)))
        ≡ some token
  unfolding csrf_cookie named
  csrf_kept node csrf_key =
      let (parsed, read_as, values) = parsed_values csrf_cookie_name (token ∷ []) refl in
      rw (read_as, values) refl

  pub token_kept :
      is_valid_csrf_token token ≡ true
      → read_csrf_cookie_token (some (session_pair raw ++ (b';' ∷ b' ' ∷ csrf_pair token)))
        ≡ some token
  unfolding read_csrf_cookie_token named
  token_kept valid =
      let (parsed, read_as, values) = parsed_values csrf_cookie_name (token ∷ []) refl in
      rw (read_as, values, valid) refl
