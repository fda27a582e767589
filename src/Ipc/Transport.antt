-- ===== src/Ipc/Transport.antt =====
-- The frames of src/ipc/admin-command-ipc.ts: a buffer is a list of bytes, and what the source asks of
-- a request whatever its side.
pub mod Once
pub mod Server
pub mod Tests
pub mod Client
pub mod Carried
pub mod Chunks
pub mod Delivery
use waw_discord_bot.Prelude.{
  ℕ, zero, suc, ◌+◌, ◌-◌, Bool, true, false, not, ◌&&◌, ◌||◌, Option, none, some, List, [], ◌∷◌,
  ◌++◌, length, any, ltb, ◌==◌, if◌then◌else◌, ◌>>=◌,
}
use waw_discord_bot.Ipc.Platform.{Platform}
use waw_discord_bot.Ipc.Payload
use waw_discord_bot.Ipc.Payload.{AdminCommand}
use waw_discord_bot.Ipc.Reasons
use waw_discord_bot.Ipc.Reasons.{Refusal}
use waw_discord_bot.Ipc.Request.{AdminCommandRequest}
use waw_discord_bot.Ipc.Response.{AdminCommandResponse, refused}

abbrev pub Buffer : Type 0
Buffer = List ℕ

abbrev pub line_feed : ℕ
line_feed = 10

-- `ADMIN_COMMAND_MAXIMUM_FRAME_BYTES`
abbrev pub maximum_frame_bytes : ℕ
maximum_frame_bytes = 32768

-- What a socket does with texts: the bytes that it writes for a text, and a buffer as the frame that
-- the parsers take.
pub record Encoding (p : Platform) : Type 0 where
  pub encode : p.Text → Buffer
  pub view : Buffer → p.Bytes

-- `buffer.includes(byte)`
unfoldable pub includes : ℕ → Buffer → Bool
includes byte buffer = any (λ b. b == byte) buffer

-- `buffer.indexOf(byte)`, where `none` is -1.
unfoldable pub index_of : ℕ → Buffer → Option ℕ
index_of byte [] = none
index_of byte (b ∷ bs) =
    let rest = index_of byte bs in if b == byte then some 0 else do n ← rest; some (suc n)

-- `buffer.subarray(0, count)`
unfoldable pub take : ℕ → Buffer → Buffer
take n [] = []
take zero (b ∷ bs) = []
take (suc n) (b ∷ bs) = b ∷ take n bs

-- `buffer.at(-1)`
unfoldable pub last : Buffer → Option ℕ
last [] = none
last (b ∷ []) = some b
last (b ∷ c ∷ bs) = last (c ∷ bs)

abbrev pub ends_line : Option ℕ → Bool
ends_line none = false
ends_line (some b) = b == line_feed

unfoldable pub one_frame : Buffer → Option Buffer
unfolding includes take last
one_frame buffer =
    if ltb (length buffer) 2
      || ltb (maximum_frame_bytes + 1) (length buffer)
      || not (ends_line (last buffer))
    then none
    else (let frame = take (length buffer - 1) buffer in
        if includes line_feed frame then none else some frame)

unfoldable pub transport_failure : AdminCommandRequest → Refusal → AdminCommandResponse
transport_failure request outcome = record {
  request_id = request.request_id;
  operation_id = request.operation_id;
  answer = refused outcome Reasons.request_unavailable;
}

abbrev pub is_mutation_command : AdminCommand → Bool
is_mutation_command (Payload.riot_link_request_approve id version) = true
is_mutation_command (Payload.riot_link_request_reject id version) = true
is_mutation_command (Payload.riot_link_remove id version) = true
is_mutation_command (Payload.credit_account_adjust id version delta reason) = true
is_mutation_command _ = false

unfoldable pub is_mutation : AdminCommandRequest → Bool
is_mutation request = is_mutation_command request.command
