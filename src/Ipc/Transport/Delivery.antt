-- ===== src/Ipc/Transport/Delivery.antt =====
-- A request and its response on their way between the client and the server of
-- src/ipc/admin-command-ipc.ts, however the socket cuts them into chunks.
use waw_discord_bot.Prelude.{
  ◌≤◌, ◌≡◌, refl, ap, ◌∙◌, true, false, none, some, List, [], ◌∷◌, ◌++◌, map, length, length-append,
  arith, All, ltb,
}
use waw_discord_bot.Ipc.Json.{obj}
use waw_discord_bot.Ipc.Platform.{Platform, ReadsBack, ReadsDates}
use waw_discord_bot.Ipc.Payload.{command_name}
use waw_discord_bot.Ipc.Request.{AdminCommandRequest}
use waw_discord_bot.Ipc.Request.Laws.{Fits, IsRequest, written, parse-serialize}
use waw_discord_bot.Ipc.Response.{AdminCommandResponse, response_fields}
use waw_discord_bot.Ipc.Response.Laws.{IsResponse, parse-serialize_response}
use waw_discord_bot.Ipc.Transport.{Buffer, line_feed, Encoding, includes, one_frame}
use waw_discord_bot.Ipc.Transport.Carried.{Carries, parse_request-bytes, parse_response-bytes}
use waw_discord_bot.Ipc.Transport.Server.{
  Connection, Action, report, execute, request_accepted, parse_line, on_line, on_buffer, on_data,
  handle_connection, run, Event, data_event, settled, Step, sent_line, respond, on_response,
  on_settled, connected, write_end, response_ready, outcome_text, reason_of,
}
use waw_discord_bot.Ipc.Transport.Client
use waw_discord_bot.Ipc.Transport.Client.{Exchange}
use waw_discord_bot.Ipc.Transport.Chunks.{
  IsChunk, joined, line_of, append_nil, append_assoc, prefix-frame, includes-prefix, index_of-none,
  index_of-line, take-line, length-line, one_frame-line,
}

-- A connection that has received this, and nothing more.
abbrev pub waiting : Buffer → Connection
waiting buffer = record {
  buffer = buffer;
  rejected = false;
  handled = false;
  destroyed = false;
  pending = none;
}

-- A connection whose request is executed.
abbrev pub busy : Buffer → AdminCommandRequest → Connection
busy buffer request = record {
  buffer = buffer;
  rejected = false;
  handled = true;
  destroyed = false;
  pending = some request;
}

abbrev pub accepted : AdminCommandRequest → List Action
accepted request = report (request_accepted (command_name request.command)) ∷ execute request ∷ []

-- What a connection does that is given the request and then the response to it.
abbrev pub IsServed : AdminCommandRequest → AdminCommandResponse → Buffer → Step → Type 0
IsServed r a line step =
    step.1
    ≡ report (request_accepted (command_name r.command))
      ∷ execute r
      ∷ report
          (response_ready (command_name r.command) (outcome_text a.answer) (reason_of a.answer))
      ∷ write_end line
      ∷ []

module _ (p : Platform) (e : Encoding p) where
  on_buffer-part :
      (b : Buffer)
      → includes line_feed b ≡ false
      → length b ≤ 32768
      → on_buffer p e (waiting b) ≡ (waiting b, [])
  unfolding on_buffer on_line
  on_buffer-part b h short = ground (arith, index_of-none line_feed b)

  on_buffer-line :
      (frame : Buffer) (r : AdminCommandRequest)
      → includes line_feed frame ≡ false
      → length frame ≤ 32768
      → parse_line p e frame ≡ some r
      → on_buffer p e (waiting (line_of frame)) ≡ (busy (line_of frame) r, accepted r)
  unfolding on_buffer on_line
  on_buffer-line frame r h short read =
      ground (arith, index_of-line frame, length-line frame, take-line frame (line_feed ∷ []))

  -- What follows the start of a request.
  abbrev pub after_start : Buffer → AdminCommandRequest → List Event → Step
  after_start frame r more =
      let (c, actions) = run p e (busy (line_of frame) r) more in (c, accepted r ++ actions)

  -- However a line that holds a request is cut, the request is started when all of it has come, and
  -- nothing is done before.
  pub run-chunks :
      (frame : Buffer) (r : AdminCommandRequest) (more : List Event)
      → includes line_feed frame ≡ false
      → length frame ≤ 32768
      → parse_line p e frame ≡ some r
      → (b c : Buffer) (cs : List Buffer) → All IsChunk cs
      → b ++ joined (c ∷ cs) ≡ line_of frame
      → run p e (waiting b) (map data_event (c ∷ cs) ++ more) ≡ after_start frame r more
  unfolding run handle_connection on_data
  run-chunks frame r more h short read b c [] chunks whole =
      let whole' : b ++ c ≡ line_of frame = rw (← append_nil c) whole in
      rw (whole', on_buffer-line frame r h short read) refl
  run-chunks frame r more h short read b c ([] ∷ cs) chunks whole = absurd chunks.0
  run-chunks frame r more h short read b c ((x ∷ d) ∷ cs) chunks whole =
      let whole' : (b ++ c) ++ (x ∷ (d ++ joined cs)) ≡ line_of frame =
        append_assoc b c (x ∷ (d ++ joined cs)) ∙ whole in
      let (rest, same) = prefix-frame (b ++ c) x (d ++ joined cs) frame whole' in
      let part : includes line_feed (b ++ c) ≡ false =
        includes-prefix line_feed (b ++ c) rest (rw (← same) h) in
      let fits : length (b ++ c) ≤ 32768 =
        omega (arith, ap length same, length-append (b ++ c) rest) in
      rw
        (
          on_buffer-part (b ++ c) part fits,
          run-chunks frame r more h short read (b ++ c) (x ∷ d) cs chunks.1 whole',
        )
        refl

module _ (p : Platform) (e : Encoding p) (r : AdminCommandRequest) where
  abbrev receiving : Buffer → Exchange
  receiving b = record { buffer = b; resolved = none }

  -- The client collects what comes, as long as it fits a frame.
  run_client-chunks :
      (whole : Buffer) (more : List Client.Event)
      → length whole ≤ 32769
      → (b : Buffer) (cs : List Buffer) → b ++ joined cs ≡ whole
      → Client.run p e r (receiving b) (map Client.data_event cs ++ more)
        ≡ Client.run p e r (receiving whole) more
  unfolding Client.run Client.exchange
  run_client-chunks whole more short b [] h = rw (← append_nil b, h) refl
  run_client-chunks whole more short b (c ∷ cs) h =
      let h' : (b ++ c) ++ joined cs ≡ whole = append_assoc b c (joined cs) ∙ h in
      let fits : length (b ++ c) ≤ 32769 =
        omega (arith, ap length h', length-append (b ++ c) (joined cs)) in
      let small : ltb 32769 (length (b ++ c)) ≡ false = ground arith in
      rw (Client.run, Client.exchange, small) (run_client-chunks whole more short (b ++ c) cs h')

module _ (p : Platform) (e : Encoding p) (back : ReadsBack p) (dates : ReadsDates p) where
  abbrev response_text : AdminCommandResponse → p.Text
  response_text a = p.json_stringify (obj (response_fields a))

  abbrev response_line : AdminCommandResponse → Buffer
  response_line a = line_of (e.encode (response_text a))

  respond-line :
      (r : AdminCommandRequest) (a : AdminCommandResponse)
      → IsResponse p a
      → Fits p (response_text a)
      → respond p e r a ≡ write_end (response_line a)
  unfolding respond
  respond-line r a h fits =
      let line : sent_line p e a ≡ some (response_line a) =
        rw (sent_line, (parse-serialize_response p back a h fits).0) refl in
      rw (respond, line) refl

  received-line :
      (r : AdminCommandRequest) (a : AdminCommandResponse)
      → IsResponse p a
      → a.request_id ≡ r.request_id
      → Fits p (response_text a)
      → Carries p e (response_text a)
      → Client.received p e r (response_line a) ≡ a
  unfolding Client.received
  received-line r a h same fits carries =
      let whole : one_frame (response_line a) ≡ some (e.encode (response_text a)) =
        one_frame-line (e.encode (response_text a)) (carries.one_line fits.1) (ground arith)
          (ground arith) in
      let read = (parse-serialize_response p back a h fits).1 in
      rw
        (
          whole,
          ← same,
          parse_response-bytes p e (response_text a) carries fits (some a.request_id),
          read,
        )
        refl

  settled-busy :
      (b : Buffer) (r : AdminCommandRequest) (a : AdminCommandResponse)
      → IsResponse p a
      → Fits p (response_text a)
      → (run p e (busy b r) (settled (some a) ∷ [])).1
        ≡ report
            (response_ready (command_name r.command) (outcome_text a.answer) (reason_of a.answer))
          ∷ write_end (response_line a)
          ∷ []
  unfolding run handle_connection on_settled on_response
  settled-busy b r a h fits = rw (respond-line r a h fits) refl

  serve-line :
      (r : AdminCommandRequest) (t : p.Text) (a : AdminCommandResponse)
      → Fits p t
      → Carries p e t
      → parse_line p e (e.encode t) ≡ some r
      → IsResponse p a
      → Fits p (response_text a)
      → (cs : List Buffer) → All IsChunk cs
      → joined cs ≡ line_of (e.encode t)
      → IsServed r a
          (response_line a)
          (run p e connected (map data_event cs ++ (settled (some a) ∷ [])))
  serve-line r t a fits carries read h fits_a [] chunks whole =
      absurd (omega (arith, ap length whole, length-line (e.encode t)))
  serve-line r t a fits carries read h fits_a (c ∷ cs) chunks whole =
      rw
        (
          run-chunks p e (e.encode t) r (settled (some a) ∷ []) (carries.one_line fits.1)
              (ground arith) read [] c cs chunks.1 whole,
          settled-busy (line_of (e.encode t)) r a h fits_a,
        )
        refl

  answered-line :
      (r : AdminCommandRequest) (a : AdminCommandResponse)
      → IsResponse p a
      → a.request_id ≡ r.request_id
      → Fits p (response_text a)
      → Carries p e (response_text a)
      → (cs : List Buffer) → joined cs ≡ response_line a
      → (Client.run p e r
          (receiving p e r [])
          (map Client.data_event cs ++ (Client.ended ∷ []))).resolved
        ≡ some a
  unfolding Client.run Client.exchange Client.finish
  answered-line r a h same fits carries cs whole =
      let short : length (response_line a) ≤ 32769 =
        ground (arith, length-line (e.encode (response_text a))) in
      rw
        (
          run_client-chunks p e r (response_line a) (Client.ended ∷ []) short [] cs whole,
          received-line r a h same fits carries,
        )
        refl

  -- Where JSON and dates read back what they wrote, and the socket carries the texts of a request of
  -- the protocol and of a response to it, both of which fit a frame: the client writes the request as
  -- one line; however that line is cut into chunks, the server executes that request once, and
  -- writes the response as one line; and however that line is cut, the client answers with that
  -- response.
  pub execute-delivered :
      (r : AdminCommandRequest) (t : p.Text) (a : AdminCommandResponse)
      → IsRequest r
      → written p r ≡ some t
      → Fits p t
      → Carries p e t
      → IsResponse p a
      → a.request_id ≡ r.request_id
      → Fits p (response_text a)
      → Carries p e (response_text a)
      → (Client.request_frame p e r ≡ some (line_of (e.encode t)))
        × ((cs : List Buffer)
            → All IsChunk cs
            → joined cs ≡ line_of (e.encode t)
            → IsServed r a
                (response_line a)
                (run p e connected (map data_event cs ++ (settled (some a) ∷ []))))
        × ((cs : List Buffer)
            → joined cs ≡ response_line a
            → Client.execute p e r (map Client.data_event cs ++ (Client.ended ∷ [])) ≡ some a)
  unfolding Client.request_frame Client.execute
  execute-delivered r t a hr ht fits carries ha same fits_a carries_a =
      let (t', known, sent, read) = parse-serialize p back dates r hr (rw (ht) fits) in
      let same_text : t' ≡ t = ground arith in
      let line : Client.request_frame p e r ≡ some (line_of (e.encode t)) =
        rw (sent, same_text) refl in
      let read_line : parse_line p e (e.encode t) ≡ some r =
        parse_request-bytes p e t carries fits ∙ rw (← same_text) read in
      (
        line,
        serve-line r t a fits carries read_line ha fits_a,
        λ cs whole. rw (Client.execute, line) (answered-line r a ha same fits_a carries_a cs whole),
      )
