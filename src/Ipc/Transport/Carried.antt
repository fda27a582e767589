-- ===== src/Ipc/Transport/Carried.antt =====
-- Texts that a socket carries as their bytes, and what the parsers make of those.
use waw_discord_bot.Prelude.{◌≤◌, ◌≡◌, refl, false, Option, some, String, length, arith}
use waw_discord_bot.Ipc.Platform.{Platform}
use waw_discord_bot.Ipc.Request.{text, bytes, parse_frame, parse_admin_command_request}
use waw_discord_bot.Ipc.Request.Laws.{Fits}
use waw_discord_bot.Ipc.Response.Parser.{parse_admin_command_response}
use waw_discord_bot.Ipc.Transport.{line_feed, Encoding, includes}

-- The text is not empty, its UTF-8 has the length that `byteLength` gives, is decoded to it, and has
-- a line feed only if the text has one.
pub record Carries (p : Platform) (e : Encoding p) (t : p.Text) : Type 0 where
  pub is_long : 1 ≤ p.byte_length t
  pub same_length : length (e.encode t) ≡ p.byte_length t
  pub same_size : p.size (e.view (e.encode t)) ≡ p.byte_length t
  pub decoded : p.decode (e.view (e.encode t)) ≡ some t
  pub one_line : p.has_line_break t ≡ false → includes line_feed (e.encode t) ≡ false

module _ (p : Platform) (e : Encoding p) (t : p.Text) (carries : Carries p e t)
    (fits : Fits p t) where
  parse_frame-bytes : parse_frame p (bytes (e.view (e.encode t))) ≡ parse_frame p (text t)
  unfolding parse_frame
  parse_frame-bytes = ground (arith, carries.same_size, carries.decoded)

  pub parse_request-bytes :
      parse_admin_command_request p (bytes (e.view (e.encode t)))
      ≡ parse_admin_command_request p (text t)
  unfolding parse_admin_command_request
  parse_request-bytes = rw (parse_frame-bytes) refl

  pub parse_response-bytes :
      (expected : Option String)
      → parse_admin_command_response p (bytes (e.view (e.encode t))) expected
        ≡ parse_admin_command_response p (text t) expected
  unfolding parse_admin_command_response
  parse_response-bytes expected = rw (parse_frame-bytes) refl
