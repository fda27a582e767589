-- ===== src/Auth/Cookies.antt =====
-- The cookies of a request: `parseCookies` and its readers in src/http/session-boundary.ts, and
-- `readExactCookie` of src/auth/auth-service.ts. A header is the list of its code units.
pub mod Laws
pub mod Described
pub mod Pairs
pub mod Segments
use waw_discord_bot.Prelude.{
  ℕ, suc, Bool, true, false, not, ◌&&◌, ◌||◌, Option, none, some, List, [], ◌∷◌, ◌++◌, map, length,
  all, any, ltb, leb, ◌==◌, if◌then◌else◌, ◌>>=◌,
}
use mathlib.Core.List.{reverse}
use waw_discord_bot.Kbo.Identifiers.{codes, is_alphanumeric}

abbrev pub Chars : Type 0
Chars = List ℕ

-- `===` on texts.
unfoldable pub same : Chars → Chars → Bool
same [] [] = true
same (a ∷ rest) (b ∷ others) = a == b && same rest others
same _ _ = false

-- The white space that `trim` takes away.
abbrev pub is_space : ℕ → Bool
is_space c =
    leb 9 c && leb c 13
    || c == 32
    || c == 160
    || c == 5760
    || leb 8192 c && leb c 8202
    || c == 8232
    || c == 8233
    || c == 8239
    || c == 8287
    || c == 12288
    || c == 65279

unfoldable pub trim_start : Chars → Chars
trim_start [] = []
trim_start (c ∷ cs) = if is_space c then trim_start cs else c ∷ cs

unfoldable pub trim : Chars → Chars
unfolding trim_start
trim s = reverse (trim_start (reverse (trim_start s)))

abbrev onto_first : ℕ → List Chars → List Chars
onto_first c [] = (c ∷ []) ∷ []
onto_first c (part ∷ parts) = (c ∷ part) ∷ parts

-- `s.split(separator)`, for a separator of one code unit.
unfoldable pub split : ℕ → Chars → List Chars
split separator [] = [] ∷ []
split separator (c ∷ cs) =
    let rest = split separator cs in if c == separator then [] ∷ rest else onto_first c rest

abbrev before : ℕ → Chars × Chars → Chars × Chars
before c (name, value) = (c ∷ name, value)

abbrev map_pair : ℕ → Option (Chars × Chars) → Option (Chars × Chars)
map_pair c none = none
map_pair c (some pair) = some (before c pair)

-- The parts of a text around the first separator, if it has one.
unfoldable pub cut : ℕ → Chars → Option (Chars × Chars)
cut separator [] = none
cut separator (c ∷ cs) =
    let rest = cut separator cs in if c == separator then some ([], cs) else map_pair c rest

unfoldable pub is_name_char : ℕ → Bool
unfolding is_alphanumeric
is_name_char c = is_alphanumeric c || any (λ d. c == d) (codes "!#$%&'*+-.^_`|~")

abbrev pub is_value_char : ℕ → Bool
is_value_char c = leb 33 c && leb c 126

-- The tests on a segment, whose separator is not at its start.
abbrev pub checked_pair : Chars × Chars → Option (Chars × Chars)
checked_pair ([], value) = none
checked_pair (n ∷ name, value) =
    if all is_name_char (n ∷ name) && all is_value_char value then some (n ∷ name, value) else none

unfoldable pub parse_segment : Chars → Option (Chars × Chars)
unfolding trim cut is_name_char
parse_segment segment = cut b'=' (trim segment) >>= checked_pair

-- The map of `parseCookies`, as pairs of a name and its values.
abbrev pub CookieMap : Type 0
CookieMap = List (Chars × List Chars)

unfoldable pub get : Chars → CookieMap → Option (List Chars)
unfolding same
get name [] = none
get name ((key, values) ∷ rest) = if same key name then some values else get name rest

-- `parsed.set(name, [...parsed.get(name) ?? [], value])`
unfoldable pub push : Chars → Chars → CookieMap → CookieMap
unfolding same
push name value [] = (name, value ∷ []) ∷ []
push name value ((key, values) ∷ rest) =
    if same key name
    then (key, values ++ (value ∷ [])) ∷ rest
    else (key, values) ∷ push name value rest

-- The loop over the segments.
unfoldable pub parse_segments : List Chars → CookieMap → Option CookieMap
unfolding parse_segment push
parse_segments [] parsed = some parsed
parse_segments (segment ∷ segments) parsed = do
  pair ← parse_segment segment
  parse_segments segments (push pair.0 pair.1 parsed)

unfoldable pub parse_cookies : Option Chars → Option CookieMap
unfolding split parse_segments
parse_cookies none = some []
parse_cookies (some []) = none
parse_cookies (some (c ∷ cs)) = parse_segments (split b';' (c ∷ cs)) []

unfoldable pub is_token_char : ℕ → Bool
unfolding is_alphanumeric
is_token_char c = is_alphanumeric c || c == b'_' || c == b'-'

-- `isValidCredential` and `isValidOpaqueSecret`: `/^[A-Za-z0-9_-]{32,128}$/`
unfoldable pub is_valid_credential : Chars → Bool
unfolding is_token_char
is_valid_credential value =
    all is_token_char value && leb 32 (length value) && leb (length value) 128

unfoldable pub is_valid_csrf_token : Chars → Bool
unfolding is_token_char
is_valid_csrf_token value = all is_token_char value && length value == 43

abbrev pub session_cookie_name : Chars
session_cookie_name = codes "__Host-waw_session"

abbrev pub csrf_cookie_name : Chars
csrf_cookie_name = codes "__Host-waw_csrf"

abbrev pub oauth_state_cookie_name : Chars
oauth_state_cookie_name = codes "__Host-waw_oauth_state"

pub data SessionCredential : Type 0 where
  missing invalid : SessionCredential
  present : (raw_session_id : Chars) → SessionCredential

abbrev pub only : List Chars → Option Chars
only (value ∷ []) = some value
only _ = none

abbrev pub valid_session : Option Chars → SessionCredential
unfolding is_valid_credential
valid_session none = invalid
valid_session (some value) = if is_valid_credential value then present value else invalid

abbrev pub session_of : Option (List Chars) → SessionCredential
session_of none = missing
session_of (some values) = valid_session (only values)

-- `none` of the map with no header cannot be: then it is empty.
unfoldable pub read_session_credential : Option Chars → SessionCredential
unfolding parse_cookies get is_valid_credential
read_session_credential header = elim (parse_cookies header) [
  | none ↦ elim header [ none ↦ missing | some h ↦ invalid ]
  | some parsed ↦ session_of (get session_cookie_name parsed)
]

abbrev valid_csrf : Option Chars → Option Chars
unfolding is_valid_csrf_token
valid_csrf none = none
valid_csrf (some value) = if is_valid_csrf_token value then some value else none

unfoldable pub read_csrf_cookie_token : Option Chars → Option Chars
unfolding parse_cookies get is_valid_csrf_token
read_csrf_cookie_token header = do
  parsed ← parse_cookies header
  values ← get csrf_cookie_name parsed
  valid_csrf (only values)

-- `segment.startsWith(prefix)` and what comes after the prefix.
unfoldable pub strip : Chars → Chars → Option Chars
strip [] text = some text
strip (p ∷ prefix) [] = none
strip (p ∷ prefix) (c ∷ text) = let rest = strip prefix text in if p == c then rest else none

unfoldable pub values_of : Chars → List Chars → List Chars
unfolding strip trim
values_of name [] = []
values_of name (segment ∷ segments) = elim (strip (name ++ (b'=' ∷ [])) (trim segment)) [
  | none ↦ values_of name segments
  | some value ↦ value ∷ values_of name segments
]

abbrev pub valid_secret : Option Chars → Option Chars
unfolding is_valid_credential
valid_secret none = none
valid_secret (some value) = if is_valid_credential value then some value else none

-- `readExactCookie`
unfoldable pub read_exact_cookie : Option Chars → Chars → Option Chars
unfolding split values_of is_valid_credential
read_exact_cookie header name = do h ← header; valid_secret (only (values_of name (split b';' h)))
