-- ===== src/Kbo/Identifiers.antt =====
-- The patterns by which src/kbo checks identifiers: `/^[A-Za-z0-9][A-Za-z0-9._:-]{lo,hi}$/` and
-- `/^[1-9][0-9]{16,19}$/`, as tests over the characters of a text. The patterns have no flags, so `$`
-- matches at the end of the text only, and a character outside ASCII matches no class.
use Prim.Native.Char.{code}
use waw_discord_bot.Prelude.{
  ℕ, Bool, false, ◌&&◌, ◌||◌, leb, ◌==◌, String, List, [], ◌∷◌, length, all,
}

-- The code points of a text.
abbrev pub codes : String → List ℕ
codes String.[] = []
codes (String.◌∷◌ c s) = code c ∷ codes s

unfoldable pub is_digit : ℕ → Bool
is_digit c = leb b'0' c && leb c b'9'

unfoldable pub is_alphanumeric : ℕ → Bool
unfolding is_digit
is_alphanumeric c = leb b'A' c && leb c b'Z' || leb b'a' c && leb c b'z' || is_digit c

unfoldable pub is_id_char : ℕ → Bool
unfolding is_alphanumeric
is_id_char c = is_alphanumeric c || c == b'.' || c == b'_' || c == b':' || c == b'-'

abbrev pub matches_from : (ℕ → Bool) → (ℕ → Bool) → ℕ → ℕ → List ℕ → Bool
matches_from first later lo hi [] = false
matches_from first later lo hi (c ∷ cs) =
    first c && all later cs && leb lo (length cs) && leb (length cs) hi

unfoldable pub is_operation_id : String → Bool
unfolding is_id_char
is_operation_id s = matches_from is_alphanumeric is_id_char 7 127 (codes s)

unfoldable pub is_opaque_id : String → Bool
unfolding is_id_char
is_opaque_id s = matches_from is_alphanumeric is_id_char 15 127 (codes s)

unfoldable pub is_game_id : String → Bool
unfolding is_id_char
is_game_id s = matches_from is_alphanumeric is_id_char 7 127 (codes s)

unfoldable pub is_snowflake : String → Bool
unfolding is_digit
is_snowflake s = matches_from (λ c. leb b'1' c && leb c b'9') is_digit 16 19 (codes s)
