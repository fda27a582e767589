-- ===== src/Ipc/Request/Laws.antt =====
-- Requests that are written and read.
use waw_discord_bot.Prelude.{
  ℕ, ◌+◌, ◌≤◌, ◌<◌, ◌≡◌, refl, true, false, Option, none, some, Date, instant, invalid_date, arith,
  eq_refl, ◌>>=◌, String,
}
use waw_discord_bot.Kbo.Identifiers.{is_operation_id, is_snowflake}
use waw_discord_bot.Ipc.Json.{Json, obj, Fields, is_exact, is_exact_fields}
use waw_discord_bot.Ipc.Text.{is_request_id}
use waw_discord_bot.Ipc.Platform.{Platform, ReadsBack, ReadsDates}
use waw_discord_bot.Ipc.Payload.Laws.{is_command, parse_payload-payload, is_exact-payload}
use waw_discord_bot.Ipc.Request.{
  AdminCommandRequest, text, parse_frame, parse_exact_date, parse_request_fields,
  parse_admin_command_request, wire, iso, serialize_admin_command_request,
}

-- A request that ends after it begins, at most 15 seconds later.
abbrev pub IsLifetime : Date → Date → Type 0
IsLifetime (instant a) (instant b) = (a < b) × (b ≤ a + 15000)
IsLifetime _ _ = ⊥

-- What the protocol asks of a request.
pub record IsRequest (r : AdminCommandRequest) : Type 0 where
  pub request_id_ok : is_request_id r.request_id ≡ true
  pub operation_id_ok : is_operation_id r.operation_id ≡ true
  pub actor_id_ok : is_snowflake r.actor_id ≡ true
  pub guild_id_ok : is_snowflake r.guild_id ≡ true
  pub lifetime : IsLifetime r.requested_at r.expires_at
  pub command_ok : is_command r.command ≡ true

IsLifetime-cases : (x y : Date) → IsLifetime x y → (a b : ℕ) × (x ≡ instant a) × (y ≡ instant b)
IsLifetime-cases (instant a) (instant b) h = (a, b, refl, refl)
IsLifetime-cases (instant a) invalid_date h = absurd h
IsLifetime-cases invalid_date y h = absurd h

module _ (p : Platform) where
  open p use {to_iso, byte_length, has_line_break, json_stringify}

  -- A text that is short enough and one line.
  abbrev pub Fits : p.Text → Type 0
  Fits t = (byte_length t ≤ 32768) × (has_line_break t ≡ false)

  -- The text of a request, as it is written.
  abbrev pub written : AdminCommandRequest → Option p.Text
  written r = do
    a ← iso p r.requested_at
    b ← iso p r.expires_at
    some (json_stringify (obj (wire p r a b)))

  abbrev pub IsSent : Option p.Text → Type 0
  IsSent none = ⊥
  IsSent (some t) = Fits t

  module _ (back : ReadsBack p) where
    pub parse_frame-written :
        (fs : Fields)
        → is_exact_fields fs ≡ true
        → Fits (json_stringify (obj fs))
        → parse_frame p (text (json_stringify (obj fs))) ≡ some fs
    unfolding parse_frame is_exact
    parse_frame-written fs exact h = ground (arith, back (obj fs))

  module _ (back : ReadsBack p) (dates : ReadsDates p) where
    parse_exact_date-to_iso : (t : ℕ) → parse_exact_date p (some (Json.str (to_iso t))) ≡ some t
    unfolding parse_exact_date
    parse_exact_date-to_iso t = ground (arith, dates t, eq_refl (to_iso t))

    parse_request_fields-wire :
        (r : AdminCommandRequest) (a b : ℕ)
        → r.requested_at ≡ instant a
        → r.expires_at ≡ instant b
        → IsRequest r
        → parse_request_fields p (wire p r (to_iso a) (to_iso b)) ≡ some r
    unfolding parse_request_fields
    parse_request_fields-wire r a b ha hb h = ground (
      arith,
      parse_exact_date-to_iso a,
      parse_exact_date-to_iso b,
      parse_payload-payload r.command,
    )

    is_exact-wire : (r : AdminCommandRequest) (a b : String) → is_exact_fields (wire p r a b) ≡ true
    unfolding is_exact
    is_exact-wire r a b = ground (arith, is_exact-payload r.command)

    parse-written :
        (r : AdminCommandRequest) (a b : ℕ)
        → r.requested_at ≡ instant a
        → r.expires_at ≡ instant b
        → IsRequest r
        → Fits (json_stringify (obj (wire p r (to_iso a) (to_iso b))))
        → parse_admin_command_request p
            (text (json_stringify (obj (wire p r (to_iso a) (to_iso b)))))
          ≡ some r
    unfolding parse_admin_command_request
    parse-written r a b ha hb h fits =
        rw
          (parse_frame-written back (wire p r (to_iso a) (to_iso b))
            (is_exact-wire r (to_iso a) (to_iso b)) fits)
          (parse_request_fields-wire r a b ha hb h)

    -- Where JSON and dates read back what they wrote, a request of the protocol whose text fits a
    -- frame is serialized, and its text is read back as the request.
    pub parse-serialize :
        (r : AdminCommandRequest)
        → IsRequest r
        → IsSent (written r)
        → (t : p.Text) × (written r ≡ some t)
          × (serialize_admin_command_request p r ≡ some t)
          × (parse_admin_command_request p (text t) ≡ some r)
    unfolding serialize_admin_command_request
    parse-serialize r h sent =
        let (a, b, ha, hb) = IsLifetime-cases r.requested_at r.expires_at h.lifetime in
        let fields : Fields = wire p r (to_iso a) (to_iso b) in
        let known : written r ≡ some (json_stringify (obj fields)) = rw (ha, hb) in
        let read : parse_admin_command_request p (text (json_stringify (obj fields))) ≡ some r =
          parse-written r a b ha hb h (rw known at sent) in
        (json_stringify (obj fields), known, rw (ha, hb) (rw read), read)
