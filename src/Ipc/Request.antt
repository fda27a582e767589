-- ===== src/Ipc/Request.antt =====
-- The requests of src/contracts/admin-command-ipc.ts: `parseAdminCommandRequest` and
-- `serializeAdminCommandRequest`.
pub mod Laws
pub mod Accepted
use waw_discord_bot.Prelude.{
  ℕ, ◌-◌, Bool, false, ◌&&◌, ◌||◌, Option, none, some, String, str_eq, [], ◌∷◌, pos, eqb_ℤ, Date,
  instant, invalid_date, ltb, leb, if◌then◌else◌, ◌>>=◌,
}
use waw_discord_bot.Kbo.Identifiers.{is_operation_id, is_snowflake}
use waw_discord_bot.Ipc.Json.{
  Json, str, obj, Fields, end, field, as_object, member, has_exact_keys, as_text, as_pattern,
  as_integer,
}
use waw_discord_bot.Ipc.Text.{is_request_id}
use waw_discord_bot.Ipc.Platform.{Platform}
use waw_discord_bot.Ipc.Payload.{AdminCommand, when, number, parse_payload, payload, command_name}

pub record AdminCommandRequest : Type 0 where
  pub request_id : String
  pub operation_id : String
  pub actor_id : String
  pub guild_id : String
  pub requested_at : Date
  pub expires_at : Date
  pub command : AdminCommand

-- A frame is a text or bytes.
pub data Frame (p : Platform) : Type 0 where
  text : p.Text → Frame p
  bytes : p.Bytes → Frame p

abbrev pub is_protocol_version : Option Json → Bool
is_protocol_version v = elim (as_integer v) [ none ↦ false | some z ↦ eqb_ℤ z (pos 1) ]

-- The lifetime of a request: positive, and at most 15 seconds.
abbrev pub is_lifetime : ℕ → ℕ → Bool
is_lifetime requested expires = ltb requested expires && leb (expires - requested) 15000

module _ (p : Platform) where
  open p use {
    Text, byte_length, size, decode, has_line_break, json_parse, json_stringify, parse_date, to_iso,
  }

  abbrev frame_text : Frame p → Option Text
  frame_text (text t) = some t
  frame_text (bytes b) = if ltb 32768 (size b) then none else decode b

  -- `parseFrame`
  unfoldable pub parse_frame : Frame p → Option Fields
  parse_frame f = do
    t ← frame_text f
    if ltb 32768 (byte_length t) || has_line_break t then none else do v ← json_parse t; as_object v

  abbrev exact_date : String → Date → Option ℕ
  exact_date s invalid_date = none
  exact_date s (instant t) = if str_eq (to_iso t) s then some t else none

  -- `parseExactDate`
  unfoldable pub parse_exact_date : Option Json → Option ℕ
  parse_exact_date v = do s ← as_text v; exact_date s (parse_date s)

  unfoldable pub parse_request_fields : Fields → Option AdminCommandRequest
  unfolding member as_pattern parse_exact_date has_exact_keys
  parse_request_fields o =
      when
        (has_exact_keys o (
            "actorId" ∷ "command" ∷ "expiresAt" ∷ "guildId" ∷ "operationId" ∷ "payload"
            ∷ "requestId" ∷ "requestedAt" ∷ "version" ∷ [])
          && is_protocol_version (member "version" o))
        do
          request_id ← as_pattern is_request_id (member "requestId" o)
          operation_id ← as_pattern is_operation_id (member "operationId" o)
          actor_id ← as_pattern is_snowflake (member "actorId" o)
          guild_id ← as_pattern is_snowflake (member "guildId" o)
          name ← as_text (member "command" o)
          requested ← parse_exact_date (member "requestedAt" o)
          expires ← parse_exact_date (member "expiresAt" o)
          when (is_lifetime requested expires) do
            command ← parse_payload name (member "payload" o)
            some record {
              request_id = request_id;
              operation_id = operation_id;
              actor_id = actor_id;
              guild_id = guild_id;
              requested_at = instant requested;
              expires_at = instant expires;
              command = command;
            }

  unfoldable pub parse_admin_command_request : Frame p → Option AdminCommandRequest
  unfolding parse_frame parse_request_fields
  parse_admin_command_request f = do o ← parse_frame f; parse_request_fields o

  -- `toISOString`, which throws for an invalid date.
  abbrev pub iso : Date → Option String
  iso invalid_date = none
  iso (instant t) = some (to_iso t)

  abbrev pub wire : AdminCommandRequest → (requested expires : String) → Fields
  wire r requested expires = field "version" (number (pos 1)) (
      field "requestId" (str r.request_id) (
        field "operationId" (str r.operation_id) (
          field "actorId" (str r.actor_id) (
            field "guildId" (str r.guild_id) (
              field "command" (str (command_name r.command)) (
                field "requestedAt" (str requested) (
                  field "expiresAt" (str expires)
                    (field "payload" (obj (payload r.command)) end))))))))

  -- `none` is the error of a request that cannot be read back.
  unfoldable pub serialize_admin_command_request : AdminCommandRequest → Option Text
  unfolding parse_admin_command_request
  serialize_admin_command_request r = do
    requested ← iso r.requested_at
    expires ← iso r.expires_at
    let serialized = json_stringify (obj (wire r requested expires))
    read ← parse_admin_command_request (text serialized)
    some serialized
