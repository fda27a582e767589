-- ===== src/Ipc/Response/Laws.antt =====
-- Responses that are written and read.
use waw_discord_bot.Prelude.{
  ◌≡◌, refl, Bool, true, false, ◌&&◌, none, some, arith, eq_refl, String, str_eq, List, [], ◌∷◌,
  length, all, is_some, leb,
}
use waw_discord_bot.Kbo.Identifiers.{is_operation_id, is_snowflake}
use waw_discord_bot.Ipc.Json.{
  Listed, listed_json, str, obj, is_exact, is_exact_fields, is_exact_items, is_version, elements,
  as_listed,
}
use waw_discord_bot.Ipc.Text.{is_request_id, is_cursor, is_platform, is_amount}
use waw_discord_bot.Ipc.Platform.{Platform, ReadsBack}
use waw_discord_bot.Ipc.Payload.Laws.{as_listed-listed_json, is_exact-listed_json}
use waw_discord_bot.Ipc.Request.{text, parse_frame, parse_exact_date}
use waw_discord_bot.Ipc.Request.Laws.{Fits, parse_frame-written}
use waw_discord_bot.Ipc.Reasons.{
  TerminalOutcome, denied, conflict, duplicate, unavailable, outcome_unknown, refusal_text,
  reason_code-reason_text, refusal-refusal_text, terminal_outcome, terminal_text,
  terminal_outcome-terminal_text, Refusal,
}
use waw_discord_bot.Ipc.Response.{
  PendingRiotLinkIpcItem, approved, rejected, corrected, cancelled, Result, riot_link_request_page,
  riot_link_decision, riot_link_removal, credit_account_adjustment, game_incident_mutation,
  operation_status, Answer, success, refused, AdminCommandResponse, item_fields, items_json,
  result_fields, result_json, response_fields, answer_fields,
}
use waw_discord_bot.Ipc.Response.Parser.{
  is_sized, parse_decision_result, parse_removal_result, parse_adjustment_result,
  parse_mutation_result, parse_status_result, parse_pending_item, parse_items, parse_page_result,
  parse_result, parse_response_fields, parse_admin_command_response,
  serialize_admin_command_response,
}

as_listed-terminal_outcome :
    (o : Listed TerminalOutcome) → as_listed terminal_outcome (listed_json terminal_text o) ≡ some o
as_listed-terminal_outcome o =
    as_listed-listed_json terminal_outcome terminal_text terminal_outcome-terminal_text o

refusal_text-not_success : (r : Refusal) → str_eq (refusal_text r) "success" ≡ false
refusal_text-not_success denied = refl
refusal_text-not_success conflict = refl
refusal_text-not_success duplicate = refl
refusal_text-not_success unavailable = refl
refusal_text-not_success outcome_unknown = refl

abbrev response : String → String → Answer → AdminCommandResponse
response id operation_id a = record { request_id = id; operation_id = operation_id; answer = a }

module _ (p : Platform) where
  -- What the protocol asks of an item, of a result and of a response.
  abbrev pub is_item : PendingRiotLinkIpcItem → Bool
  is_item i =
      is_operation_id i.request_id
      && is_snowflake i.discord_user_id
      && is_sized 1 80 i.requester_label
      && is_platform i.platform_id
      && is_sized 1 32 i.game_name
      && is_sized 2 8 i.tag_line
      && is_version i.version
      && is_some (parse_exact_date p (some (str i.requested_at)))

  abbrev pub is_page : List PendingRiotLinkIpcItem → Bool
  is_page items = leb (length items) 50 && all is_item items

  abbrev pub is_result : Result → Bool
  is_result (riot_link_request_page items none) = is_page items
  is_result (riot_link_request_page items (some cursor)) = is_page items && is_cursor cursor
  is_result (credit_account_adjustment balance version) = is_amount balance && is_version version
  is_result (riot_link_decision d) = true
  is_result riot_link_removal = true
  is_result (game_incident_mutation m) = true
  is_result (operation_status status reason) = true

  abbrev pub is_answer : Answer → Bool
  is_answer (success r) = is_result r
  is_answer (refused outcome reason) = true

  pub record IsResponse (r : AdminCommandResponse) : Type 0 where
    pub request_id_ok : is_request_id r.request_id ≡ true
    pub operation_id_ok : is_operation_id r.operation_id ≡ true
    pub answer_ok : is_answer r.answer ≡ true

  parse_pending_item-item_fields :
      (i : PendingRiotLinkIpcItem)
      → is_item i ≡ true
      → parse_pending_item p (obj (item_fields i)) ≡ some i
  unfolding parse_pending_item
  parse_pending_item-item_fields i h = ground arith

  parse_items-items_json :
      (is : List PendingRiotLinkIpcItem)
      → all is_item is ≡ true
      → parse_items p (elements (items_json is)) ≡ some is
  unfolding parse_items elements items_json
  parse_items-items_json [] h = refl
  parse_items-items_json (i ∷ is) h =
      ground (arith, parse_pending_item-item_fields i, parse_items-items_json is)

  length-elements :
      (is : List PendingRiotLinkIpcItem) → length (elements (items_json is)) ≡ length is
  unfolding elements items_json
  length-elements [] = refl
  length-elements (i ∷ is) = omega (arith, length-elements is)

  parse_result-result_json :
      (r : Result) → is_result r ≡ true → parse_result p (some (result_json r)) ≡ some r
  unfolding parse_result parse_page_result parse_decision_result parse_removal_result
      parse_adjustment_result parse_mutation_result parse_status_result
  parse_result-result_json (riot_link_request_page is none) h =
      ground (arith, parse_items-items_json is, length-elements is)
  parse_result-result_json (riot_link_request_page is (some cursor)) h =
      ground (arith, parse_items-items_json is, length-elements is)
  parse_result-result_json (riot_link_decision approved) h = refl
  parse_result-result_json (riot_link_decision rejected) h = refl
  parse_result-result_json riot_link_removal h = refl
  parse_result-result_json (credit_account_adjustment balance version) h = ground arith
  parse_result-result_json (game_incident_mutation corrected) h = refl
  parse_result-result_json (game_incident_mutation cancelled) h = refl
  parse_result-result_json (operation_status status reason) h =
      ground (arith, reason_code-reason_text reason, as_listed-terminal_outcome status)

  parse_response_fields-response_fields :
      (id operation_id : String) (a : Answer)
      → is_request_id id ≡ true
      → is_operation_id operation_id ≡ true
      → is_answer a ≡ true
      → parse_response_fields p (some id) (response_fields (response id operation_id a))
        ≡ some (response id operation_id a)
  unfolding parse_response_fields
  parse_response_fields-response_fields id operation_id (success r) h k l =
      ground (arith, eq_refl id, parse_result-result_json r)
  parse_response_fields-response_fields id operation_id (refused outcome reason) h k l = ground (
    arith,
    eq_refl id,
    refusal-refusal_text outcome,
    refusal_text-not_success outcome,
    reason_code-reason_text reason,
  )

  is_exact-items_json : (is : List PendingRiotLinkIpcItem) → is_exact_items (items_json is) ≡ true
  unfolding is_exact items_json
  is_exact-items_json [] = refl
  is_exact-items_json (i ∷ is) = is_exact-items_json is

  is_exact-result_fields : (r : Result) → is_exact_fields (result_fields r) ≡ true
  unfolding is_exact
  is_exact-result_fields (riot_link_request_page is none) = ground (arith, is_exact-items_json is)
  is_exact-result_fields (riot_link_request_page is (some cursor)) =
      ground (arith, is_exact-items_json is)
  is_exact-result_fields (operation_status status reason) =
      ground (arith, is_exact-listed_json terminal_text status)
  is_exact-result_fields r = refl

  is_exact-answer_fields : (a : Answer) → is_exact_fields (answer_fields a) ≡ true
  unfolding is_exact
  is_exact-answer_fields (success r) = ground (arith, is_exact-result_fields r)
  is_exact-answer_fields (refused outcome reason) = refl

  is_exact-response_fields : (r : AdminCommandResponse) → is_exact_fields (response_fields r) ≡ true
  unfolding is_exact
  is_exact-response_fields r = is_exact-answer_fields r.answer

  module _ (back : ReadsBack p) where
    -- A response of the protocol whose text fits a frame is serialized, and whoever sent the request
    -- of its identifier reads it back as it was.
    pub parse-serialize_response :
        (r : AdminCommandResponse)
        → IsResponse r
        → Fits p (p.json_stringify (obj (response_fields r)))
        → (serialize_admin_command_response p r ≡ some (p.json_stringify (obj (response_fields r))))
          × (parse_admin_command_response p
                (text (p.json_stringify (obj (response_fields r))))
                (some r.request_id)
              ≡ some r)
    unfolding serialize_admin_command_response parse_admin_command_response
    parse-serialize_response r h fits =
        let read : parse_frame p (text (p.json_stringify (obj (response_fields r))))
            ≡ some (response_fields r) =
          parse_frame-written p back (response_fields r) (is_exact-response_fields r) fits in
        let answered : parse_response_fields p (some r.request_id) (response_fields r) ≡ some r =
          parse_response_fields-response_fields r.request_id r.operation_id r.answer h.request_id_ok
            h.operation_id_ok h.answer_ok in
        (rw (read, answered), rw (read) answered)
