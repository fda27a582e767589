-- ===== src/Ipc/Transport/Tests.antt =====
-- The transport on a concrete request and response, whose texts are two bytes long.
use waw_discord_bot.Prelude.{
  ℕ, suc, ◌≤◌, ◌≡◌, refl, ap, false, Option, none, some, List, [], ◌∷◌, ◌++◌, map, length, instant,
  ◌==◌, if◌then◌else◌, arith, All,
}
use waw_discord_bot.Kbo.Identifiers.{codes, is_operation_id}
use waw_discord_bot.Ipc.Json.{Json, obj, Fields, end, field}
use waw_discord_bot.Ipc.Text.{is_request_id}
use waw_discord_bot.Ipc.Platform.{Platform, ReadsBack, ReadsDates}
use waw_discord_bot.Ipc.Request.{wire}
use waw_discord_bot.Ipc.Response.{response_fields}
use waw_discord_bot.Ipc.Response.Laws.{IsResponse}
use waw_discord_bot.Ipc.Tests.{
  cancel_incident, cancelled, tally, length-tally, cancel_incident-IsRequest,
}
use waw_discord_bot.Ipc.Transport.{Buffer, Encoding, includes, one_frame}
use waw_discord_bot.Ipc.Transport.Carried.{Carries}
use waw_discord_bot.Ipc.Transport.Chunks.{IsChunk, joined}
use waw_discord_bot.Ipc.Transport.Client
use waw_discord_bot.Ipc.Transport.Server.{connected, run, accept, data_event, settled}
use waw_discord_bot.Ipc.Transport.Delivery.{IsServed, execute-delivered}
use waw_discord_bot.Ipc.Transport.Once.{executions, IsLawful, run-executes}

abbrev count : Fields → ℕ
count end = 0
count (field name v fs) = suc (count fs)

-- The text of an object is a byte for the number of its fields, twice.
abbrev encode_value : Json → Buffer
encode_value (obj fs) = count fs ∷ count fs ∷ []
encode_value _ = []

abbrev response_json : Json
response_json = obj (response_fields cancelled)

abbrev decode_value : Json → Buffer → Option Json
decode_value request [] = none
decode_value request (b ∷ bs) = some (if b == 9 then request else response_json)

-- A platform whose texts are values, which decodes the bytes of this request.
abbrev framed_with : Json → Platform
framed_with request = record {
  Text = Json;
  Bytes = Buffer;
  byte_length = λ v. 2;
  size = λ b. length b;
  decode = decode_value request;
  has_line_break = λ v. false;
  json_parse = λ v. some v;
  json_stringify = λ v. v;
  parse_date = λ s. instant (length (codes s));
  to_iso = tally;
}

abbrev request_json : Json
request_json = obj (wire (framed_with Json.null) cancel_incident (tally 5) (tally 9))

abbrev framed : Platform
framed = framed_with request_json

abbrev encoding : Encoding framed
encoding = record { encode = encode_value; view = λ b. b }

framed-ReadsBack : ReadsBack framed
framed-ReadsBack v h = refl

framed-ReadsDates : ReadsDates framed
framed-ReadsDates t = ap instant (length-tally t)

request_json-Carries : Carries framed encoding request_json
unfolding includes
request_json-Carries = record {
  is_long = omega arith;
  same_length = refl;
  same_size = refl;
  decoded = refl;
  one_line = λ h. refl;
}

response_json-Carries : Carries framed encoding response_json
unfolding includes
response_json-Carries = record {
  is_long = omega arith;
  same_length = refl;
  same_size = refl;
  decoded = refl;
  one_line = λ h. refl;
}

cancelled-IsResponse : IsResponse framed cancelled
unfolding is_request_id is_operation_id
cancelled-IsResponse = record { request_id_ok = refl; operation_id_ok = refl; answer_ok = refl }

one_frame_cut : one_frame (9 ∷ 9 ∷ 10 ∷ []) ≡ some (9 ∷ 9 ∷ [])
unfolding one_frame
one_frame_cut = refl

one_frame_two_lines : one_frame (9 ∷ 10 ∷ 9 ∷ 10 ∷ []) ≡ none
unfolding one_frame
one_frame_two_lines = refl

-- The ninth connection is refused.
accept_ninth :
    accept record { maximum_connections = 8; active_connections = 8 }
    ≡ (record { maximum_connections = 8; active_connections = 8 }, none)
unfolding accept
accept_ninth = refl

execute-delivered_example :
    (Client.request_frame framed encoding cancel_incident ≡ some (9 ∷ 9 ∷ 10 ∷ []))
    × ((cs : List Buffer)
        → All IsChunk cs
        → joined cs ≡ 9 ∷ 9 ∷ 10 ∷ []
        → IsServed cancel_incident cancelled
            (6 ∷ 6 ∷ 10 ∷ [])
            (run framed encoding connected (map data_event cs ++ (settled (some cancelled) ∷ []))))
    × ((cs : List Buffer)
        → joined cs ≡ 6 ∷ 6 ∷ 10 ∷ []
        → Client.execute framed encoding cancel_incident
            (map Client.data_event cs ++ (Client.ended ∷ []))
          ≡ some cancelled)
execute-delivered_example =
    execute-delivered framed encoding framed-ReadsBack framed-ReadsDates cancel_incident
      request_json cancelled cancel_incident-IsRequest refl (omega arith, refl) request_json-Carries
      cancelled-IsResponse refl (omega arith, refl) response_json-Carries

run-executes_example :
    (executions
        (run framed encoding connected
          (data_event (9 ∷ 9 ∷ 10 ∷ []) ∷ settled none ∷ data_event (9 ∷ 10 ∷ []) ∷ [])).1
      ≤ 1)
    × All IsLawful
        (run framed encoding connected
          (data_event (9 ∷ 9 ∷ 10 ∷ []) ∷ settled none ∷ data_event (9 ∷ 10 ∷ []) ∷ [])).1
run-executes_example =
    run-executes framed encoding
      (data_event (9 ∷ 9 ∷ 10 ∷ []) ∷ settled none ∷ data_event (9 ∷ 10 ∷ []) ∷ [])
