-- ===== src/Ipc/Transport/Server.antt =====
-- One connection to the server of src/ipc/admin-command-ipc.ts: `handleConnection`, whose callbacks
-- are the steps of a connection, and the count of connections.
use waw_discord_bot.Prelude.{
  ℕ, ◌+◌, ◌-◌, Bool, true, false, not, ◌||◌, Option, none, some, String, List, [], ◌∷◌, ◌++◌,
  length, ltb, leb, ◌==◌, if◌then◌else◌,
}
use waw_discord_bot.Ipc.Platform.{Platform}
use waw_discord_bot.Ipc.Payload.{command_name}
use waw_discord_bot.Ipc.Reasons
use waw_discord_bot.Ipc.Reasons.{AdminCommandReasonCode, refusal_text}
use waw_discord_bot.Ipc.Request.{AdminCommandRequest, bytes, parse_admin_command_request}
use waw_discord_bot.Ipc.Response.{AdminCommandResponse, Answer, success, refused}
use waw_discord_bot.Ipc.Response.Parser.{serialize_admin_command_response}
use waw_discord_bot.Ipc.Transport.{
  Buffer, line_feed, maximum_frame_bytes, Encoding, includes, index_of, take, transport_failure,
}

pub data AdminCommandIpcServerDiagnostic : Type 0 where
  request_accepted execute_failed : (command : String) → AdminCommandIpcServerDiagnostic
  response_ready :
      (command outcome : String) (reason_code : AdminCommandReasonCode)
      → AdminCommandIpcServerDiagnostic
  frame_invalid frame_too_large : AdminCommandIpcServerDiagnostic

-- What a callback does besides changing its variables. `unhandled` is a promise that is rejected
-- and that nobody catches.
pub data Action : Type 0 where
  report : AdminCommandIpcServerDiagnostic → Action
  execute : AdminCommandRequest → Action
  write_end : Buffer → Action
  destroy : Action
  unhandled : Action

-- `pending` is the request whose execution has not settled.
pub record Connection : Type 0 where
  pub buffer : Buffer
  pub rejected : Bool
  pub handled : Bool
  pub destroyed : Bool
  pub pending : Option AdminCommandRequest

abbrev pub connected : Connection
connected = record {
  buffer = [];
  rejected = false;
  handled = false;
  destroyed = false;
  pending = none;
}

abbrev pub Step : Type 0
Step = Connection × List Action

-- What happens to a connection: a chunk arrives, the execution settles (`none` is a rejected
-- promise), the other side ends, the socket closes, the deadline passes.
pub data Event : Type 0 where
  data_event : Buffer → Event
  settled : Option AdminCommandResponse → Event
  ended closed deadline : Event

abbrev pub outcome_text : Answer → String
outcome_text (success result) = "success"
outcome_text (refused outcome reason) = refusal_text outcome

abbrev pub reason_of : Answer → AdminCommandReasonCode
reason_of (success result) = Reasons.completed
reason_of (refused outcome reason) = reason

abbrev pub reject : Connection → AdminCommandIpcServerDiagnostic → Step
reject c diagnostic =
    (record c { rejected = true; destroyed = true }, report diagnostic ∷ destroy ∷ [])

abbrev pub start : Connection → Option AdminCommandRequest → Step
start c none = (record c { destroyed = true }, report frame_invalid ∷ destroy ∷ [])
start c (some request) = (
  record c { pending = some request },
  report (request_accepted (command_name request.command)) ∷ execute request ∷ [],
)

-- `socket.end` with a response, or with a failure if the response has no line.
abbrev pub end_with : Option Buffer → Option Buffer → Action
end_with (some line) failure = write_end line
end_with none (some line) = write_end line
end_with none none = unhandled

module _ (p : Platform) (e : Encoding p) where
  abbrev pub parse_line : Buffer → Option AdminCommandRequest
  parse_line frame = parse_admin_command_request p (bytes (e.view frame))

  -- The part after the buffer's length was tested.
  unfoldable pub on_line : Connection → Option ℕ → Step
  unfolding take includes
  on_line c none = (c, [])
  on_line c (some newline) =
      if c.handled
        || not (newline == length c.buffer - 1)
        || includes line_feed (take newline c.buffer)
      then reject c frame_invalid
      else start (record c { handled = true }) (parse_line (take newline c.buffer))

  unfoldable pub on_buffer : Connection → Step
  unfolding on_line index_of
  on_buffer c =
      if ltb (maximum_frame_bytes + 1) (length c.buffer)
      then reject c frame_too_large
      else on_line c (index_of line_feed c.buffer)

  -- `socket.on("data", …)`
  unfoldable pub on_data : Connection → Buffer → Step
  unfolding on_buffer
  on_data c chunk =
      if c.rejected then (c, []) else on_buffer (record c { buffer = c.buffer ++ chunk })

  -- The line of a response that can be serialized.
  unfoldable pub sent_line : AdminCommandResponse → Option Buffer
  unfolding serialize_admin_command_response
  sent_line response = elim (serialize_admin_command_response p response) [
    | none ↦ none
    | some t ↦ some (e.encode t ++ (line_feed ∷ []))
  ]

  unfoldable pub respond : AdminCommandRequest → AdminCommandResponse → Action
  unfolding sent_line transport_failure
  respond request response =
      end_with (sent_line response) (sent_line (transport_failure request Reasons.unavailable))

  unfoldable pub on_response : Connection → AdminCommandRequest → AdminCommandResponse → List Action
  unfolding respond
  on_response c request response =
      report (
        response_ready (command_name request.command) (outcome_text response.answer)
          (reason_of response.answer))
      ∷ (if c.destroyed then [] else (respond request response ∷ []))

  unfoldable pub on_settled :
      Connection → Option AdminCommandRequest → Option AdminCommandResponse → Step
  unfolding on_response transport_failure
  on_settled c none answer = (c, [])
  on_settled c (some request) (some response) =
      (record c { pending = none }, on_response c request response)
  on_settled c (some request) none = (
    record c { pending = none },
    report (execute_failed (command_name request.command))
        ∷ on_response c request (transport_failure request Reasons.unavailable),
  )

  unfoldable pub handle_connection : Connection → Event → Step
  unfolding on_data on_settled
  handle_connection c (data_event chunk) = on_data c chunk
  handle_connection c (settled answer) = on_settled c c.pending answer
  handle_connection c ended =
      if c.handled then (c, []) else (record c { destroyed = true }, destroy ∷ [])
  handle_connection c closed = (record c { destroyed = true }, [])
  handle_connection c deadline = (record c { destroyed = true }, destroy ∷ [])

  -- The events of a connection, in their order, and all that is done.
  unfoldable pub run : Connection → List Event → Step
  unfolding handle_connection
  run c [] = (c, [])
  run c (event ∷ events) =
      let (d, actions) = handle_connection c event in
      let (d', more) = run d events in (d', actions ++ more)

-- The callback of `createServer`: a connection is destroyed at once, or counted.
pub record Server : Type 0 where
  pub maximum_connections : ℕ
  pub active_connections : ℕ

unfoldable pub accept : Server → Server × Option Connection
accept s =
    if leb s.maximum_connections s.active_connections
    then (s, none)
    else (record s { active_connections = s.active_connections + 1 }, some connected)

unfoldable pub on_close : Server → Server
on_close s = record s { active_connections = s.active_connections - 1 }
