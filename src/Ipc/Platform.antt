-- ===== src/Ipc/Platform.antt =====
-- What the language and node give to src/contracts/admin-command-ipc.ts: the texts and the bytes of
-- frames, `JSON`, and the dates of `toISOString`.
use waw_discord_bot.Prelude.{ℕ, ◌≡◌, Bool, true, Option, some, String, Date, instant}
use waw_discord_bot.Ipc.Json.{Json, is_exact}

pub record Platform : Type 1 where
  pub Text : Type 0
  pub Bytes : Type 0
  -- `Buffer.byteLength(text, "utf8")`
  pub byte_length : Text → ℕ
  -- `frame.byteLength`
  pub size : Bytes → ℕ
  -- `new TextDecoder("utf-8", { fatal: true }).decode(frame)`
  pub decode : Bytes → Option Text
  -- `text.includes("\n") || text.includes("\r")`
  pub has_line_break : Text → Bool
  -- `none` is an exception.
  pub json_parse : Text → Option Json
  pub json_stringify : Json → Text
  -- `new Date(text)`
  pub parse_date : String → Date
  -- `toISOString` of a valid date.
  pub to_iso : ℕ → String

-- `JSON.parse` reads what `JSON.stringify` wrote, as long as its numbers are integers.
abbrev pub ReadsBack : Platform → Type 0
ReadsBack p = (v : Json) → is_exact v ≡ true → p.json_parse (p.json_stringify v) ≡ some v

-- `new Date` reads what `toISOString` wrote.
abbrev pub ReadsDates : Platform → Type 0
ReadsDates p = (t : ℕ) → p.parse_date (p.to_iso t) ≡ instant t
