-- ===== src/Ipc/Transport/Client.antt =====
-- The client of src/ipc/admin-command-ipc.ts: `execute` and `exchange`.
use waw_discord_bot.Prelude.{
  ◌+◌, Option, none, some, List, [], ◌∷◌, ◌++◌, length, ltb, if◌then◌else◌, ◌>>=◌,
}
use waw_discord_bot.Ipc.Platform.{Platform}
use waw_discord_bot.Ipc.Reasons
use waw_discord_bot.Ipc.Reasons.{Refusal}
use waw_discord_bot.Ipc.Request.{AdminCommandRequest, bytes, serialize_admin_command_request}
use waw_discord_bot.Ipc.Response.{AdminCommandResponse}
use waw_discord_bot.Ipc.Response.Parser.{parse_admin_command_response}
use waw_discord_bot.Ipc.Transport.{
  Buffer, line_feed, maximum_frame_bytes, Encoding, one_frame, transport_failure, is_mutation,
}

-- `resolved` is what the promise was resolved with: it stands for `settled`.
pub record Exchange : Type 0 where
  pub buffer : Buffer
  pub resolved : Option AdminCommandResponse

-- The callbacks of the socket and of the deadline.
pub data Event : Type 0 where
  data_event : Buffer → Event
  ended failed deadline : Event

unfoldable pub finish : Exchange → AdminCommandResponse → Exchange
finish x response = elim x.resolved [
  | some earlier ↦ x
  | none ↦ record x { resolved = some response }
]

-- `response ?? failure`
abbrev or_else : Option AdminCommandResponse → AdminCommandResponse → AdminCommandResponse
or_else none failure = failure
or_else (some response) failure = response

module _ (p : Platform) (e : Encoding p) (request : AdminCommandRequest) where
  unfoldable pub received : Buffer → AdminCommandResponse
  unfolding one_frame transport_failure
  received buffer =
      or_else
        (do
          frame ← one_frame buffer
          parse_admin_command_response p (bytes (e.view frame)) (some request.request_id))
        (transport_failure request Reasons.unavailable)

  unfoldable pub late_outcome : Refusal
  unfolding is_mutation
  late_outcome = if is_mutation request then Reasons.outcome_unknown else Reasons.unavailable

  unfoldable pub exchange : Exchange → Event → Exchange
  unfolding finish received late_outcome transport_failure
  exchange x (data_event chunk) =
      let y = record x { buffer = x.buffer ++ chunk } in
      if ltb (maximum_frame_bytes + 1) (length y.buffer)
      then finish y (transport_failure request Reasons.unavailable)
      else y
  exchange x ended = finish x (received x.buffer)
  exchange x failed = finish x (transport_failure request Reasons.unavailable)
  exchange x deadline = finish x (transport_failure request late_outcome)

  unfoldable pub run : Exchange → List Event → Exchange
  unfolding exchange
  run x [] = x
  run x (event ∷ events) = run (exchange x event) events

  -- What is written when the socket is connected; `none` is a request that is answered at once, by
  -- a failure.
  unfoldable pub request_frame : Option Buffer
  unfolding serialize_admin_command_request
  request_frame = do
    t ← serialize_admin_command_request p request
    some (e.encode t ++ (line_feed ∷ []))

  -- `execute`, with what happens on the socket.
  unfoldable pub execute : List Event → Option AdminCommandResponse
  unfolding request_frame run transport_failure
  execute events = elim request_frame [
    | none ↦ some (transport_failure request Reasons.unavailable)
    | some frame ↦ (run record { buffer = []; resolved = none } events).resolved
  ]
