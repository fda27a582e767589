-- ===== src/Ipc/Text.antt =====
-- The patterns and the tests of texts of src/contracts/admin-command-ipc.ts. A text is read by its
-- code points; those above 65535 count twice in `length`.
use waw_discord_bot.Prelude.{
  ℕ, ◌+◌, Bool, true, false, not, ◌&&◌, ◌||◌, ltb, leb, ◌==◌, String, List, [], ◌∷◌, length, all,
  any, if◌then◌else◌,
}
use mathlib.Core.List.{reverse}
use waw_discord_bot.Kbo.Identifiers.{codes, is_digit, is_alphanumeric}

abbrev between : ℕ → ℕ → List ℕ → Bool
between lo hi cs = leb lo (length cs) && leb (length cs) hi

unfoldable pub is_token_char : ℕ → Bool
unfolding is_alphanumeric
is_token_char c = is_alphanumeric c || c == b'_' || c == b'-'

-- `requestIdPattern`
unfoldable pub is_request_id : String → Bool
unfolding is_token_char
is_request_id s = all is_token_char (codes s) && between 16 128 (codes s)

-- `cursorPattern`
unfoldable pub is_cursor : String → Bool
unfolding is_token_char
is_cursor s = all is_token_char (codes s) && between 1 256 (codes s)

-- `platformPattern`
unfoldable pub is_platform : String → Bool
unfolding is_digit
is_platform s = all (λ c. leb b'A' c && leb c b'Z' || is_digit c) (codes s) && between 2 8 (codes s)

-- `/^(0|[1-9][0-9]{0,18})$/`
abbrev is_natural_codes : List ℕ → Bool
is_natural_codes [] = false
is_natural_codes (c ∷ []) = is_digit c
is_natural_codes (c ∷ cs) = leb b'1' c && leb c b'9' && all is_digit cs && between 0 18 cs

unfoldable pub is_amount : String → Bool
unfolding is_digit
is_amount s = is_natural_codes (codes s)

-- `s.length`: code units of UTF-16.
unfoldable pub code_units : List ℕ → ℕ
code_units [] = 0
code_units (c ∷ cs) = (if ltb c 65536 then 1 else 2) + code_units cs

unfoldable pub text_length : String → ℕ
unfolding code_units
text_length s = code_units (codes s)

-- The white space and line ends of JavaScript.
unfoldable pub is_space : ℕ → Bool
is_space c =
    leb 9 c && leb c 13
    || any (◌==◌ c) (32 ∷ 160 ∷ 0x1680 ∷ 0x2028 ∷ 0x2029 ∷ 0x202f ∷ 0x205f ∷ 0x3000 ∷ 0xfeff ∷ [])
    || leb 0x2000 c && leb c 0x200a

drop_spaces : List ℕ → List ℕ
unfolding is_space
drop_spaces [] = []
drop_spaces (c ∷ cs) = if is_space c then drop_spaces cs else c ∷ cs

same_codes : List ℕ → List ℕ → Bool
same_codes [] [] = true
same_codes (c ∷ cs) (d ∷ ds) = c == d && same_codes cs ds
same_codes _ _ = false

-- `s === s.trim()`
unfoldable pub is_trimmed : String → Bool
unfolding drop_spaces same_codes
is_trimmed s = same_codes (codes s) (reverse (drop_spaces (reverse (drop_spaces (codes s)))))

-- `/[\0\r\n]/u.test(s)`
unfoldable pub has_control : String → Bool
has_control s = any (λ c. c == 0 || c == 13 || c == 10) (codes s)

-- A reason of a change to an incident.
unfoldable pub is_reason : String → Bool
unfolding is_trimmed text_length has_control
is_reason s =
    is_trimmed s && leb 1 (text_length s) && leb (text_length s) 500 && not (has_control s)
