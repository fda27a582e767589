-- ===== src/Ipc/Request/Accepted.antt =====
-- What is read is a request of the protocol, whatever the frame.
use waw_discord_bot.Prelude.{
  ℕ, ◌+◌, ◌≤◌, ◌<◌, ◌≡◌, Bool, true, false, Option, none, some, arith, if◌then◌else◌, String, ℤ,
  Bool-cases, inl, inr, Yields, fails, gives, Yields-of, Yields-some, ◌▷◌,
}
use waw_discord_bot.Ipc.Json.{
  Listed, as_integer, as_listed, as_text, Json, null, bool, num, str, arr, obj, Fields, member,
  as_pattern, as_version, as_safe_integer, as_object, is_version, is_safe,
}
use waw_discord_bot.Ipc.Platform.{Platform}
use waw_discord_bot.Ipc.Payload.{
  AdminCommand, AdjustmentReason, is_delta, adjustment_reason, riot_link_request_list,
  riot_link_remove, credit_account_adjust, riot_link_request_approve, riot_link_request_reject,
  game_incident_correct, game_incident_cancel, optional_cursor, parse_list, parse_decision,
  parse_remove, parse_adjust, parse_incident, parse_status, parse_command, parse_payload, is_limit,
  parse_versioned, checked, when,
}
use mathlib.Core.Option.{some-injective}
use waw_discord_bot.Ipc.Text.{is_request_id, is_cursor, is_reason}
use waw_discord_bot.Kbo.Identifiers.{is_operation_id, is_snowflake}
use waw_discord_bot.Ipc.Payload.Laws.{is_command}
use waw_discord_bot.Ipc.Request.Laws.{IsRequest}
use waw_discord_bot.Ipc.Request.{
  AdminCommandRequest, Frame, is_lifetime, parse_frame, parse_exact_date, parse_request_fields,
  parse_admin_command_request,
}

as_pattern-some :
    (test : String → Bool) (v : Option Json) {s : String}
    → as_pattern test v ≡ some s
    → test s ≡ true
unfolding as_pattern
as_pattern-some test none h = cc
as_pattern-some test (some null) h = cc
as_pattern-some test (some (bool b)) h = cc
as_pattern-some test (some (num n)) h = cc
as_pattern-some test (some (str s)) h = ground arith
as_pattern-some test (some (arr xs)) h = cc
as_pattern-some test (some (obj fs)) h = cc

as_version-some : (v : Option Json) {z : ℤ} → as_version v ≡ some z → is_version z ≡ true
unfolding as_version
as_version-some v h = ground arith

as_safe_integer-some : (v : Option Json) {z : ℤ} → as_safe_integer v ≡ some z → is_safe z ≡ true
unfolding as_safe_integer
as_safe_integer-some v h = ground arith

checked-some {ℓ} :
    {A : Type ℓ} (test : A → Bool) (a : A) {b : A}
    → checked test a ≡ some b
    → (test b ≡ true) × (a ≡ b)
checked-some test a {b} h = elim (Bool-cases (test a)) [
  | inl t ↦ let same : a ≡ b = some-injective _ _ (rw t at h) in (rw (← same) t, same)
  | inr f ↦ absurd (ground arith)
]

-- What a step gives has passed its test.
as_pattern-Yields :
    (test : String → Bool) (v : Option Json) → Yields (λ s. test s ≡ true) (as_pattern test v)
as_pattern-Yields test v = Yields-of _ λ s h. as_pattern-some test v h

as_version-Yields : (v : Option Json) → Yields (λ z. is_version z ≡ true) (as_version v)
as_version-Yields v = Yields-of _ λ z h. as_version-some v h

as_safe_integer-Yields : (v : Option Json) → Yields (λ z. is_safe z ≡ true) (as_safe_integer v)
as_safe_integer-Yields v = Yields-of _ λ z h. as_safe_integer-some v h

any-Yields {ℓ} : {A : Type ℓ} (m : Option A) → Yields (λ a. Unit {0}) m
any-Yields none = fails
any-Yields (some a) = gives a tt

checked-Yields {ℓ} :
    {A : Type ℓ} (test : A → Bool) (a : A)
    → Yields (λ b. (test b ≡ true) × (a ≡ b)) (checked test a)
checked-Yields test a = Yields-of _ λ b h. checked-some test a h

when-Yields {ℓ κ} :
    {A : Type ℓ} {P : A → Type κ} {m : Option A} (b : Bool) → Yields P m → Yields P (when b m)
when-Yields true y = y
when-Yields false y = fails

abbrev IsGoodCursor : Option String → Type 0
IsGoodCursor none = Unit
IsGoodCursor (some s) = is_cursor s ≡ true

some_cursor :
    {m : Option String}
    → Yields (λ s. is_cursor s ≡ true) m
    → Yields IsGoodCursor (elim m [ none ↦ none | some c ↦ some (some c) ])
some_cursor fails = fails
some_cursor (gives s h) = gives (some s) h

optional_cursor-Yields : (v : Option Json) → Yields IsGoodCursor (optional_cursor v)
unfolding optional_cursor
optional_cursor-Yields none = gives none tt
optional_cursor-Yields (some v) = some_cursor (as_pattern-Yields is_cursor (some v))

credit_account_adjust-is_command :
    (account : String) (version read delta : ℤ) (reason : Listed AdjustmentReason)
    → is_operation_id account ≡ true
    → is_version version ≡ true
    → is_safe read ≡ true
    → (is_delta delta ≡ true) × (read ≡ delta)
    → is_command (credit_account_adjust account version delta reason) ≡ true
credit_account_adjust-is_command account version read delta reason h k safe good =
    let safe_delta : is_safe delta ≡ true = rw good.1 at safe in rw (h, k, safe_delta, good.0)

abbrev IsGood : AdminCommand → Type 0
IsGood c = is_command c ≡ true

riot_link_request_list-IsGood :
    (limit : ℤ) (cursor : Option String)
    → is_limit limit ≡ true
    → IsGoodCursor cursor
    → IsGood (riot_link_request_list limit cursor)
riot_link_request_list-IsGood limit none h k = h
riot_link_request_list-IsGood limit (some s) h k = rw (h, k)

parse_list-Yields : (o : Fields) → Yields IsGood (parse_list o)
unfolding parse_list
parse_list-Yields o = when-Yields _ (
    any-Yields (as_integer (member "limit" o)) ▷ λ read _.
    checked-Yields is_limit read ▷ λ limit in_range.
    optional_cursor-Yields (member "cursor" o) ▷ λ cursor good.
    gives _ (riot_link_request_list-IsGood limit cursor in_range.0 good))

parse_versioned-Yields :
    (key : String) (command : String → ℤ → AdminCommand) (o : Fields)
    → ((id : String) (version : ℤ)
        → is_operation_id id ≡ true
        → is_version version ≡ true
        → IsGood (command id version))
    → Yields IsGood (parse_versioned key command o)
unfolding parse_versioned
parse_versioned-Yields key command o good =
    as_pattern-Yields is_operation_id (member key o) ▷ λ id h.
    as_version-Yields (member "expectedVersion" o) ▷ λ version k. gives _ (good id version h k)

parse_decision-Yields :
    (command : String → ℤ → AdminCommand) (o : Fields)
    → ((id : String) (version : ℤ)
        → is_operation_id id ≡ true
        → is_version version ≡ true
        → IsGood (command id version))
    → Yields IsGood (parse_decision command o)
unfolding parse_decision
parse_decision-Yields command o good =
    when-Yields _ (parse_versioned-Yields "requestId" command o good)

parse_remove-Yields : (o : Fields) → Yields IsGood (parse_remove o)
unfolding parse_remove
parse_remove-Yields o =
    when-Yields _ (parse_versioned-Yields "linkId" riot_link_remove o (λ id version h k. rw (h, k)))

parse_adjust-Yields : (o : Fields) → Yields IsGood (parse_adjust o)
unfolding parse_adjust
parse_adjust-Yields o = when-Yields _ (
    as_pattern-Yields is_operation_id (member "accountId" o) ▷ λ account h.
    as_version-Yields (member "expectedVersion" o) ▷ λ version k.
    as_safe_integer-Yields (member "delta" o) ▷ λ read safe.
    checked-Yields is_delta read ▷ λ delta in_range.
    any-Yields (member "reasonCode" o) ▷ λ written _.
    any-Yields (as_listed adjustment_reason written) ▷ λ reason _. when-Yields _ (
      gives _
        (credit_account_adjust-is_command account version read delta reason h k safe in_range)))

parse_incident-Yields :
    (command : String → ℤ → String → AdminCommand) (o : Fields)
    → ((id : String) (version : ℤ) (reason : String)
        → is_operation_id id ≡ true
        → is_version version ≡ true
        → is_reason reason ≡ true
        → IsGood (command id version reason))
    → Yields IsGood (parse_incident command o)
unfolding parse_incident
parse_incident-Yields command o good = when-Yields _ (
    as_pattern-Yields is_operation_id (member "incidentId" o) ▷ λ id h.
    as_version-Yields (member "expectedVersion" o) ▷ λ version k.
    as_pattern-Yields is_reason (member "reason" o) ▷ λ reason l.
    gives _ (good id version reason h k l))

parse_status-Yields : (o : Fields) → Yields IsGood (parse_status o)
unfolding parse_status
parse_status-Yields o =
    when-Yields _ (as_pattern-Yields is_operation_id (member "operationId" o) ▷ λ id h. gives _ h)

if-Yields {ℓ κ} :
    {A : Type ℓ} {P : A → Type κ} {m k : Option A} (b : Bool)
    → Yields P m
    → Yields P k
    → Yields P (if b then m else k)
if-Yields true y z = y
if-Yields false y z = z

parse_command-Yields : (name : String) (o : Fields) → Yields IsGood (parse_command name o)
unfolding parse_command
parse_command-Yields name o = if-Yields _ (parse_list-Yields o) (
    if-Yields _ (parse_decision-Yields riot_link_request_approve o (λ id version h k. rw (h, k))) (
      if-Yields _ (parse_decision-Yields riot_link_request_reject o (λ id version h k. rw (h, k))) (
        if-Yields _ (parse_remove-Yields o) (
          if-Yields _ (parse_adjust-Yields o) (
            if-Yields _
              (parse_incident-Yields game_incident_correct o
                (λ id version reason h k l. rw (h, k, l)))
              (if-Yields _
                (parse_incident-Yields game_incident_cancel o
                  (λ id version reason h k l. rw (h, k, l)))
                (if-Yields _ (parse_status-Yields o) fails)))))))

pub parse_payload-Yields : (name : String) (v : Option Json) → Yields IsGood (parse_payload name v)
unfolding parse_payload
parse_payload-Yields name none = fails
parse_payload-Yields name (some v) = any-Yields (as_object v) ▷ λ o _. parse_command-Yields name o

lifetime-Yields {ℓ κ} :
    {A : Type ℓ} {P : A → Type κ} {m : Option A} (a b : ℕ)
    → ((a < b) × (b ≤ a + 15000) → Yields P m)
    → Yields P (when (is_lifetime a b) m)
lifetime-Yields a b k = elim (Bool-cases (is_lifetime a b)) [
  | inl t ↦ rw t (k (ground arith))
  | inr f ↦ rw f fails
]

module _ (p : Platform) where
  parse_request_fields-Yields : (o : Fields) → Yields IsRequest (parse_request_fields p o)
  unfolding parse_request_fields
  parse_request_fields-Yields o = when-Yields _ (
      as_pattern-Yields is_request_id (member "requestId" o) ▷ λ request_id a.
      as_pattern-Yields is_operation_id (member "operationId" o) ▷ λ operation_id b.
      as_pattern-Yields is_snowflake (member "actorId" o) ▷ λ actor_id c.
      as_pattern-Yields is_snowflake (member "guildId" o) ▷ λ guild_id d.
      any-Yields (as_text (member "command" o)) ▷ λ name _.
      any-Yields (parse_exact_date p (member "requestedAt" o)) ▷ λ requested _.
      any-Yields (parse_exact_date p (member "expiresAt" o)) ▷ λ expires _.
      lifetime-Yields requested expires λ lived.
        parse_payload-Yields name (member "payload" o) ▷ λ command good. gives _ record {
          request_id_ok = a;
          operation_id_ok = b;
          actor_id_ok = c;
          guild_id_ok = d;
          lifetime = lived;
          command_ok = good;
        })

  -- Whatever the frame, a request that is read from it is one of the protocol: its identifiers match
  -- their patterns, it ends after it begins and at most 15 seconds later, and its payload is in range.
  pub parse_admin_command_request-IsRequest :
      (f : Frame p) {r : AdminCommandRequest}
      → parse_admin_command_request p f ≡ some r
      → IsRequest r
  unfolding parse_admin_command_request
  parse_admin_command_request-IsRequest f h =
      Yields-some (any-Yields (parse_frame p f) ▷ λ o _. parse_request_fields-Yields o) h
