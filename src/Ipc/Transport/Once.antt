-- ===== src/Ipc/Transport/Once.antt =====
-- What a connection of src/ipc/admin-command-ipc.ts has executed, whatever happens on it.
use waw_discord_bot.Prelude.{
  ℕ, suc, ◌+◌, ◌-◌, ◌≤◌, if◌then◌else◌, ltb, length, ◌==◌, not, ◌||◌, ◌≡◌, refl, Bool, true, false,
  Option, none, some, List, [], ◌∷◌, ◌++◌, arith, All, Bool-cases, inl, inr,
}
use waw_discord_bot.Ipc.Platform.{Platform}
use waw_discord_bot.Ipc.Request.{AdminCommandRequest}
use waw_discord_bot.Ipc.Request.Laws.{IsRequest}
use waw_discord_bot.Ipc.Request.Accepted.{parse_admin_command_request-IsRequest}
use waw_discord_bot.Ipc.Response.{AdminCommandResponse}
use waw_discord_bot.Ipc.Transport.{
  Buffer, Encoding, take, index_of, includes, line_feed, transport_failure,
}
use waw_discord_bot.Ipc.Reasons
use waw_discord_bot.Ipc.Payload.{command_name}
use waw_discord_bot.Ipc.Transport.Server.{
  Connection, connected, Action, report, execute, write_end, destroy, unhandled, Step, Event,
  data_event, settled, ended, closed, deadline, parse_line, execute_failed, frame_invalid,
  frame_too_large, start, end_with, on_settled, on_line, on_buffer, on_data, on_response, respond,
  handle_connection, run,
}

-- How often a request is executed.
abbrev pub executions : List Action → ℕ
executions [] = 0
executions (execute r ∷ actions) = suc (executions actions)
executions (_ ∷ actions) = executions actions

-- An action executes requests of the protocol only.
abbrev pub IsLawful : Action → Type 0
IsLawful (execute r) = IsRequest r
IsLawful _ = Unit {0}

-- How often a connection may still execute.
abbrev pub chances : Connection → ℕ
chances c = elim c.handled [ true ↦ 0 | false ↦ 1 ]

-- A step that uses up the chances that it takes, on requests of the protocol.
record IsOrderly (n : ℕ) (s : Step) : Type 0 where
  few : executions s.1 + chances s.0 ≤ n
  lawful : All IsLawful s.1

executions-append : (xs ys : List Action) → executions (xs ++ ys) ≡ executions xs + executions ys
executions-append [] ys = omega arith
executions-append (execute r ∷ xs) ys = omega (arith, executions-append xs ys)
executions-append (report d ∷ xs) ys = executions-append xs ys
executions-append (write_end l ∷ xs) ys = executions-append xs ys
executions-append (destroy ∷ xs) ys = executions-append xs ys
executions-append (unhandled ∷ xs) ys = executions-append xs ys

All-append {ℓ} :
    {A : Type 0} (P : A → Type ℓ) (xs ys : List A) → All P xs → All P ys → All P (xs ++ ys)
All-append P [] ys h k = k
All-append P (x ∷ xs) ys h k = (h.0, All-append P xs ys h.1 k)

-- An action that executes nothing.
abbrev pub IsQuiet : Action → Type 0
IsQuiet (execute r) = ⊥
IsQuiet _ = Unit {0}

quiet-IsOrderly :
    (d : Connection) (actions : List Action)
    → All IsQuiet actions
    → IsOrderly (chances d) (d, actions)
quiet-IsOrderly d [] h = record { few = omega arith; lawful = tt }
quiet-IsOrderly d (execute r ∷ actions) h = absurd h.0
quiet-IsOrderly d (report x ∷ actions) h =
    let rest = quiet-IsOrderly d actions h.1 in
    record { few = rest.few; lawful = (tt, rest.lawful) }
quiet-IsOrderly d (write_end x ∷ actions) h =
    let rest = quiet-IsOrderly d actions h.1 in
    record { few = rest.few; lawful = (tt, rest.lawful) }
quiet-IsOrderly d (destroy ∷ actions) h =
    let rest = quiet-IsOrderly d actions h.1 in
    record { few = rest.few; lawful = (tt, rest.lawful) }
quiet-IsOrderly d (unhandled ∷ actions) h =
    let rest = quiet-IsOrderly d actions h.1 in
    record { few = rest.few; lawful = (tt, rest.lawful) }

end_with-IsQuiet : (x y : Option Buffer) → IsQuiet (end_with x y)
end_with-IsQuiet (some line) y = tt
end_with-IsQuiet none (some line) = tt
end_with-IsQuiet none none = tt

chances-fresh : (c : Connection) → c.handled ≡ false → 1 ≤ chances c
chances-fresh c h = rw h (omega arith)

more-IsOrderly : {n m : ℕ} (s : Step) → n ≤ m → IsOrderly n s → IsOrderly m s
more-IsOrderly s h o = record { few = omega (arith, h, o.few); lawful = o.lawful }

choice-IsOrderly :
    {n : ℕ} (b : Bool) (x y : Step)
    → IsOrderly n x
    → (b ≡ false → IsOrderly n y)
    → IsOrderly n (if b then x else y)
choice-IsOrderly true x y h k = h
choice-IsOrderly false x y h k = k refl

start-IsOrderly :
    (c : Connection) (o : Option AdminCommandRequest)
    → ((r : AdminCommandRequest) → o ≡ some r → IsRequest r)
    → IsOrderly 1 (start (record c { handled = true }) o)
start-IsOrderly c none h = record { few = omega arith; lawful = (tt, (tt, tt)) }
start-IsOrderly c (some r) h = record { few = omega arith; lawful = (tt, (h r refl, tt)) }

module _ (p : Platform) (e : Encoding p) where
  on_line-IsOrderly : (c : Connection) (n : Option ℕ) → IsOrderly (chances c) (on_line p e c n)
  unfolding on_line
  on_line-IsOrderly c none = quiet-IsOrderly c [] tt
  on_line-IsOrderly c (some n) =
      choice-IsOrderly
        (c.handled || not (n == length c.buffer - 1) || includes line_feed (take n c.buffer)) _ _
        (quiet-IsOrderly (record c { rejected = true; destroyed = true })
          (report frame_invalid ∷ destroy ∷ []) (tt, (tt, tt)))
        (λ good. more-IsOrderly _ (chances-fresh c (ground arith)) (
          start-IsOrderly c (parse_line p e (take n c.buffer))
            (λ r h. parse_admin_command_request-IsRequest p _ h)))

  on_buffer-IsOrderly : (c : Connection) → IsOrderly (chances c) (on_buffer p e c)
  unfolding on_buffer
  on_buffer-IsOrderly c =
      choice-IsOrderly (ltb 32769 (length c.buffer)) _ _
        (quiet-IsOrderly (record c { rejected = true; destroyed = true })
          (report frame_too_large ∷ destroy ∷ []) (tt, (tt, tt)))
        (λ _. on_line-IsOrderly c (index_of line_feed c.buffer))

  on_data-IsOrderly :
      (c : Connection) (chunk : Buffer) → IsOrderly (chances c) (on_data p e c chunk)
  unfolding on_data
  on_data-IsOrderly c chunk =
      choice-IsOrderly c.rejected _ _ (quiet-IsOrderly c [] tt)
        (λ _. on_buffer-IsOrderly (record c { buffer = c.buffer ++ chunk }))

  on_response-IsQuiet :
      (c : Connection) (r : AdminCommandRequest) (a : AdminCommandResponse)
      → All IsQuiet (on_response p e c r a)
  unfolding on_response respond
  on_response-IsQuiet c r a = elim (Bool-cases c.destroyed) [
    | inl gone ↦ rw gone (tt, tt)
    | inr there ↦ rw there (tt, (end_with-IsQuiet _ _, tt))
  ]

  on_settled-IsOrderly :
      (c : Connection) (o : Option AdminCommandRequest) (a : Option AdminCommandResponse)
      → IsOrderly (chances c) (on_settled p e c o a)
  unfolding on_settled
  on_settled-IsOrderly c none a = quiet-IsOrderly c [] tt
  on_settled-IsOrderly c (some r) (some a) =
      quiet-IsOrderly (record c { pending = none }) (on_response p e c r a)
        (on_response-IsQuiet c r a)
  on_settled-IsOrderly c (some r) none =
      quiet-IsOrderly (record c { pending = none })
        (report (execute_failed (command_name r.command))
          ∷ on_response p e c r (transport_failure r Reasons.unavailable))
        (tt, on_response-IsQuiet c r (transport_failure r Reasons.unavailable))

  handle_connection-IsOrderly :
      (c : Connection) (event : Event) → IsOrderly (chances c) (handle_connection p e c event)
  unfolding handle_connection
  handle_connection-IsOrderly c (data_event chunk) = on_data-IsOrderly c chunk
  handle_connection-IsOrderly c (settled a) = on_settled-IsOrderly c c.pending a
  handle_connection-IsOrderly c ended =
      choice-IsOrderly c.handled _ _ (quiet-IsOrderly c [] tt)
        (λ _. quiet-IsOrderly (record c { destroyed = true }) (destroy ∷ []) (tt, tt))
  handle_connection-IsOrderly c closed = quiet-IsOrderly (record c { destroyed = true }) [] tt
  handle_connection-IsOrderly c deadline =
      quiet-IsOrderly (record c { destroyed = true }) (destroy ∷ []) (tt, tt)

  run-IsOrderly : (c : Connection) (events : List Event) → IsOrderly (chances c) (run p e c events)
  unfolding run
  run-IsOrderly c [] = quiet-IsOrderly c [] tt
  run-IsOrderly c (event ∷ events) =
      let first = handle_connection-IsOrderly c event in
      let rest = run-IsOrderly (handle_connection p e c event).0 events in
      let sum =
        executions-append (handle_connection p e c event).1
          (run p e (handle_connection p e c event).0 events).1 in
      record {
        few = omega (arith, first.few, rest.few, sum);
        lawful = All-append IsLawful _ _ first.lawful rest.lawful;
      }

  -- Whatever happens on a connection, in any order, it executes at most one request, and only one of
  -- the protocol.
  pub run-executes :
      (events : List Event)
      → (executions (run p e connected events).1 ≤ 1) × All IsLawful (run p e connected events).1
  run-executes events =
      let orderly = run-IsOrderly connected events in (omega (arith, orderly.few), orderly.lawful)
