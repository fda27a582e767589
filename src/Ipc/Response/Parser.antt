-- ===== src/Ipc/Response/Parser.antt =====
-- `parseAdminCommandResponse` and `serializeAdminCommandResponse` of
-- src/contracts/admin-command-ipc.ts.
use waw_discord_bot.Prelude.{
  ℕ, Bool, true, false, ◌&&◌, Option, none, some, String, str_eq, List, [], ◌∷◌, leb, length,
  if◌then◌else◌, ◌>>=◌, is_some,
}
use waw_discord_bot.Kbo.Identifiers.{is_operation_id, is_snowflake}
use waw_discord_bot.Ipc.Json.{
  Json, arr, obj, Fields, elements, as_object, member, has_exact_keys, has_exact_optional_keys,
  as_text, as_pattern, as_version, as_listed,
}
use waw_discord_bot.Ipc.Text.{is_request_id, is_platform, is_amount, text_length}
use waw_discord_bot.Ipc.Platform.{Platform}
use waw_discord_bot.Ipc.Payload.{when, optional_cursor}
use waw_discord_bot.Ipc.Request.{Frame, text, parse_frame, parse_exact_date, is_protocol_version}
use waw_discord_bot.Ipc.Reasons.{
  AdminCommandReasonCode, reason_code, reason_text, refusal, terminal_outcome,
}
use waw_discord_bot.Ipc.Response.{
  PendingRiotLinkIpcItem, approved, rejected, corrected, cancelled, Result, riot_link_request_page,
  riot_link_decision, riot_link_removal, credit_account_adjustment, game_incident_mutation,
  operation_status, Answer, success, refused, AdminCommandResponse, response_fields,
}

abbrev pub is_sized : ℕ → ℕ → String → Bool
is_sized lo hi s = leb lo (text_length s) && leb (text_length s) hi

-- `typeof value === "string"` within bounds of its length.
unfoldable pub as_sized : ℕ → ℕ → Option Json → Option String
as_sized lo hi v = as_pattern (is_sized lo hi) v

-- `value === word`
abbrev pub is_word : String → Option Json → Bool
is_word word v = elim (as_text v) [ none ↦ false | some s ↦ str_eq s word ]

abbrev one_of {ℓ} : {A : Type ℓ} → String → A → String → A → Option Json → Option A
one_of word a other b v =
    if is_word word v then some a else if is_word other v then some b else none

unfoldable pub parse_decision_result : Fields → Option Result
unfolding member has_exact_keys
parse_decision_result o = when (has_exact_keys o ("kind" ∷ "status" ∷ [])) do
  status ← one_of "approved" approved "rejected" rejected (member "status" o)
  some (riot_link_decision status)

unfoldable pub parse_removal_result : Fields → Option Result
unfolding member has_exact_keys
parse_removal_result o =
    when (has_exact_keys o ("kind" ∷ "status" ∷ []) && is_word "removed" (member "status" o))
      (some riot_link_removal)

unfoldable pub parse_adjustment_result : Fields → Option Result
unfolding member has_exact_keys as_pattern as_version
parse_adjustment_result o =
    when
      (has_exact_keys o ("availableBalance" ∷ "kind" ∷ "status" ∷ "version" ∷ [])
        && is_word "adjusted" (member "status" o))
      do
        balance ← as_pattern is_amount (member "availableBalance" o)
        version ← as_version (member "version" o)
        some (credit_account_adjustment balance version)

unfoldable pub parse_mutation_result : Fields → Option Result
unfolding member has_exact_keys
parse_mutation_result o = when (has_exact_keys o ("kind" ∷ "status" ∷ [])) do
  status ← one_of "corrected" corrected "cancelled" cancelled (member "status" o)
  some (game_incident_mutation status)

unfoldable pub parse_status_result : Fields → Option Result
unfolding member has_exact_keys as_listed terminal_outcome reason_code
parse_status_result o = when (has_exact_keys o ("kind" ∷ "reasonCode" ∷ "status" ∷ [])) do
  written ← member "status" o
  status ← as_listed terminal_outcome written
  word ← as_text (member "reasonCode" o)
  reason ← reason_code word
  some (operation_status status reason)

-- `Array.isArray(value)`
abbrev as_list : Option Json → Option (List Json)
as_list (some (arr xs)) = some (elements xs)
as_list _ = none

module _ (p : Platform) where
  unfoldable pub parse_item_fields : Fields → Option PendingRiotLinkIpcItem
  unfolding member has_exact_keys as_pattern as_sized as_version
  parse_item_fields o =
      when
        (has_exact_keys o (
          "discordUserId" ∷ "gameName" ∷ "platformId" ∷ "requestId" ∷ "requesterLabel"
          ∷ "requestedAt" ∷ "tagLine" ∷ "version" ∷ []))
        do
          request_id ← as_pattern is_operation_id (member "requestId" o)
          user ← as_pattern is_snowflake (member "discordUserId" o)
          label ← as_sized 1 80 (member "requesterLabel" o)
          platform ← as_pattern is_platform (member "platformId" o)
          game_name ← as_sized 1 32 (member "gameName" o)
          tag_line ← as_sized 2 8 (member "tagLine" o)
          requested_at ← as_text (member "requestedAt" o)
          version ← as_version (member "version" o)
          when (is_some (parse_exact_date p (member "requestedAt" o))) (
              some record {
                request_id = request_id;
                discord_user_id = user;
                requester_label = label;
                platform_id = platform;
                game_name = game_name;
                tag_line = tag_line;
                requested_at = requested_at;
                version = version;
              })

  unfoldable pub parse_pending_item : Json → Option PendingRiotLinkIpcItem
  unfolding parse_item_fields
  parse_pending_item v = do o ← as_object v; parse_item_fields o

  -- `map(parsePendingItem)`, if every item is one.
  unfoldable pub parse_items : List Json → Option (List PendingRiotLinkIpcItem)
  parse_items [] = some []
  parse_items (v ∷ vs) = do item ← parse_pending_item v; items ← parse_items vs; some (item ∷ items)

  unfoldable pub parse_page_result : Fields → Option Result
  unfolding member has_exact_optional_keys optional_cursor
  parse_page_result o =
      when (has_exact_optional_keys o ("kind" ∷ "requests" ∷ []) ("nextCursor" ∷ [])) do
        written ← as_list (member "requests" o)
        cursor ← optional_cursor (member "nextCursor" o)
        when (leb (length written) 50)
            do requests ← parse_items written; some (riot_link_request_page requests cursor)

  unfoldable pub parse_result_fields : String → Fields → Option Result
  parse_result_fields kind o =
      if str_eq kind "riot_link_decision"
      then parse_decision_result o
      else if str_eq kind "riot_link_removal"
      then parse_removal_result o
      else if str_eq kind "credit_account_adjustment"
      then parse_adjustment_result o
      else if str_eq kind "game_incident_mutation"
      then parse_mutation_result o
      else if str_eq kind "operation_status"
      then parse_status_result o
      else if str_eq kind "riot_link_request_page"
      then parse_page_result o
      else none

  -- `parseResult`
  unfoldable pub parse_result : Option Json → Option Result
  unfolding parse_result_fields member
  parse_result v = do
    read ← v
    o ← as_object read
    kind ← as_text (member "kind" o)
    parse_result_fields kind o

  -- The tests on the kinds of answers.
  unfoldable pub parse_answer : String → AdminCommandReasonCode → Fields → Option Answer
  unfolding member has_exact_keys parse_result refusal
  parse_answer outcome reason o =
      if str_eq outcome "success"
      then when
          (has_exact_keys o
              ("operationId" ∷ "outcome" ∷ "reasonCode" ∷ "requestId" ∷ "result" ∷ "version" ∷ [])
            && str_eq (reason_text reason) "completed")
          (parse_result (member "result" o) >>= λ result. some (success result))
      else (refusal outcome >>= λ r.
          when
            (has_exact_keys o
              ("operationId" ∷ "outcome" ∷ "reasonCode" ∷ "requestId" ∷ "version" ∷ []))
            (some (refused r reason)))

  abbrev is_expected : Option String → String → Bool
  is_expected none id = true
  is_expected (some expected) id = str_eq id expected

  unfoldable pub parse_response_fields : Option String → Fields → Option AdminCommandResponse
  unfolding member as_pattern reason_code parse_answer
  parse_response_fields expected o = when (is_protocol_version (member "version" o)) do
    request_id ← as_pattern is_request_id (member "requestId" o)
    operation_id ← as_pattern is_operation_id (member "operationId" o)
    outcome ← as_text (member "outcome" o)
    word ← as_text (member "reasonCode" o)
    reason ← reason_code word
    when (is_expected expected request_id) do
      answer ← parse_answer outcome reason o
      some record { request_id = request_id; operation_id = operation_id; answer = answer }

  unfoldable pub parse_admin_command_response :
      Frame p → (expected_request_id : Option String) → Option AdminCommandResponse
  unfolding parse_frame parse_response_fields
  parse_admin_command_response f expected = do o ← parse_frame p f; parse_response_fields expected o

  -- `none` is the error of a response that cannot be read back.
  unfoldable pub serialize_admin_command_response : AdminCommandResponse → Option p.Text
  unfolding parse_admin_command_response
  serialize_admin_command_response r = do
    let serialized = p.json_stringify (obj (response_fields r))
    read ← parse_admin_command_response (text serialized) (some r.request_id)
    some serialized
