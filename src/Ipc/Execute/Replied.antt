-- ===== src/Ipc/Execute/Replied.antt =====
-- Every command is answered, with a response that whoever sent it reads back.
use waw_discord_bot.Prelude.{
  ℕ, ◌≤◌, ◌≡◌, refl, true, Option, none, some, String, List, [], ◌∷◌, ℤ, length, all, arith,
  Bool-cases, inl, inr, ap, subst, sym, pos, ◌≤ℤ◌,
}
use mathlib.Core.Option.{some-injective}
use waw_discord_bot.Ipc.Json.{obj}
use waw_discord_bot.Ipc.Platform.{Platform, ReadsBack, ReadsDates}
use waw_discord_bot.Ipc.Payload
use waw_discord_bot.Ipc.Payload.Laws.{is_command}
use waw_discord_bot.Ipc.Payload.{AdminCommand, AdjustmentReason, command_name, is_limit}
use waw_discord_bot.Ipc.Request.{AdminCommandRequest, text}
use waw_discord_bot.Ipc.Request.Laws.{IsRequest, Fits}
use waw_discord_bot.Ipc.Response.{
  AdminCommandResponse, PendingRiotLinkIpcItem, riot_link_request_page, response_fields,
}
use waw_discord_bot.Ipc.Response.Parser.{
  parse_admin_command_response, serialize_admin_command_response,
}
use waw_discord_bot.Ipc.Response.Laws.{is_item, is_result, parse-serialize_response}
use waw_discord_bot.Ipc.Services.{
  Effect, Answers, answers, ◌▷◌, CurrentAuthorizationResult, Page, page, duplicate, cursor_invalid,
  TerminalAdminCommandResult, PendingRiotLinkRequest, Services, Codecs,
}
use waw_discord_bot.Ipc.Services.Sound.{
  is_row, IsPage, IsNextCursor, AreSound, AreCodecs, NamesWell,
}
use waw_discord_bot.Ipc.Application.{
  decode_cursor, map_all, answer_page, list_after, list_from, list, name_of, next_cursor,
}
use waw_discord_bot.Ipc.Execute.{
  is_administrator, is_status, is_expired, dispatch, execute_new, execute_authorized, execute,
}
use waw_discord_bot.Ipc.Execute.Reply.{
  IsReply, replied, failed, audited_failure-Replies, terminal-Replies, approve-Replies,
  reject-Replies, remove-Replies, report_status-Replies, mutate_incident-Replies,
  adjust_with-Replies, map_pending-is_item,
}

answer_of :
    {S A : Type 0} {P : A → Type 0} {x : Option A × S}
    → Answers P x
    → (a : A) × (t : S) × (x ≡ (some a, t)) × P a
answer_of (answers a t h) = (a, t, refl, h)

answered_value :
    {S A : Type 0} {P : A → Type 0} {x : Option A × S} {a : A} {t : S}
    → Answers P x
    → x ≡ (some a, t)
    → P a
answered_value {P} (answers b u h) e = subst P (some-injective _ _ (ap (λ y. y.0) e)) h

module _ (p : Platform) (dates : ReadsDates p) (codecs : Codecs) (coded : AreCodecs codecs)
    {S : Type 0} (services : Services S) (sound : AreSound services) where
  abbrev AreItems : ℕ → List PendingRiotLinkIpcItem → Type 0
  AreItems n items = (length items ≡ n) × (all (is_item p) items ≡ true)

  name_of-Answers :
      (read : Option (String → Effect S (Option String)))
      → NamesWell read
      → (id : String) (s : S) → Answers (λ name. Unit {0}) (name_of p codecs services read id s)
  name_of-Answers none well id s = answers none s tt
  name_of-Answers (some read) well id s = well id s

  map_all-AreItems :
      (items : List PendingRiotLinkRequest) (s : S)
      → all is_row items ≡ true
      → Answers (AreItems (length items)) (map_all p codecs services items s)
  unfolding map_all
  map_all-AreItems [] s h = answers [] s (refl, refl)
  map_all-AreItems (item ∷ items) s h =
      name_of-Answers services.display_name sound.names_answer item.discord_user_id s ▷ λ name t _.
      map_all-AreItems items t (ground arith) ▷ λ mapped u good. answers _ u (
        omega (arith, good.0),
        rw (map_pending-is_item p dates codecs coded services sound item name (ground arith))
            good.1,
      )

  module _ (r : AdminCommandRequest) (h : IsRequest r) where
    at_most_50 : (n : ℕ) (limit : ℤ) → is_limit limit ≡ true → pos n ≤ℤ limit → n ≤ 50
    at_most_50 n limit fine short = ground arith

    at_least_1 : (limit : ℤ) → is_limit limit ≡ true → pos 1 ≤ℤ limit
    at_least_1 limit fine = ground arith

    page_ok :
        (items : List PendingRiotLinkIpcItem) (next : Option String)
        → length items ≤ 50
        → all (is_item p) items ≡ true
        → IsNextCursor next
        → is_result p (riot_link_request_page items (next_cursor p codecs services next)) ≡ true
    page_ok items none short good known = ground arith
    page_ok items (some id) short good known = ground (arith, coded.cursor_text id)

    answer_page-Replies :
        (limit : ℤ)
        → is_limit limit ≡ true
        → (found : Page) (s : S) → IsPage limit found
        → Answers
            (IsReply p dates codecs coded services sound r)
            (answer_page p codecs services r found s)
    unfolding answer_page
    answer_page-Replies limit fine (duplicate found) s _ =
        terminal-Replies p dates codecs coded services sound r h found s
    answer_page-Replies limit fine cursor_invalid s _ =
        failed p dates codecs coded services sound r h _ _ s
    answer_page-Replies limit fine (page requests next) s (short, rows, known) =
        map_all-AreItems requests s rows ▷ λ items t good.
        replied p dates codecs coded services sound r h _ t (
          page_ok items next
            (subst (λ n. n ≤ 50) (sym good.0) (at_most_50 (length requests) limit fine short))
            good.1 known)

    list_after-Replies :
        (at : ℕ) (limit : ℤ)
        → is_limit limit ≡ true
        → (after : Option String) (s : S)
        → Answers
            (IsReply p dates codecs coded services sound r)
            (list_after p codecs services r at limit after s)
    unfolding list_after
    list_after-Replies at limit fine after s =
        sound.page_answers _ limit after s (at_least_1 limit fine) ▷ answer_page-Replies limit fine

    list_from-Replies :
        (at : ℕ) (limit : ℤ)
        → is_limit limit ≡ true
        → (after : Option String) (s : S)
        → Answers
            (IsReply p dates codecs coded services sound r)
            (list_from p codecs services r at limit after s)
    unfolding list_from
    list_from-Replies at limit fine none s =
        audited_failure-Replies p dates codecs coded services sound r h _ _ _ _ s
    list_from-Replies at limit fine (some after) s = list_after-Replies at limit fine (some after) s

    list-Replies :
        (at : ℕ) (limit : ℤ)
        → is_limit limit ≡ true
        → (cursor : Option String) (s : S)
        → Answers
            (IsReply p dates codecs coded services sound r)
            (list p codecs services r at limit cursor s)
    unfolding list
    list-Replies at limit fine none s = list_after-Replies at limit fine none s
    list-Replies at limit fine (some cursor) s =
        list_from-Replies at limit fine (decode_cursor p codecs services cursor) s

    dispatch-Replies :
        (command : AdminCommand)
        → is_command command ≡ true
        → (at : ℕ) (s : S)
        → Answers
            (IsReply p dates codecs coded services sound r)
            (dispatch p codecs services command r at s)
    unfolding dispatch
    dispatch-Replies (Payload.riot_link_request_list limit none) ok at s =
        list-Replies at limit ok none s
    dispatch-Replies (Payload.riot_link_request_list limit (some cursor)) ok at s =
        list-Replies at limit (ground arith) (some cursor) s
    dispatch-Replies (Payload.riot_link_request_approve id version) ok at s =
        approve-Replies p dates codecs coded services sound r h at id version s
    dispatch-Replies (Payload.riot_link_request_reject id version) ok at s =
        reject-Replies p dates codecs coded services sound r h at id version s
    dispatch-Replies (Payload.riot_link_remove id version) ok at s =
        remove-Replies p dates codecs coded services sound r h at id version s
    dispatch-Replies (Payload.credit_account_adjust id version delta reason) ok at s =
        adjust_with-Replies p dates codecs coded services sound r h services.adjust
          sound.adjustment_answers at id version delta reason s
    dispatch-Replies (Payload.game_incident_correct id version reason) ok at s =
        mutate_incident-Replies p dates codecs coded services sound r h at _ id version reason s
    dispatch-Replies (Payload.game_incident_cancel id version reason) ok at s =
        mutate_incident-Replies p dates codecs coded services sound r h at _ id version reason s
    dispatch-Replies (Payload.operation_status id) ok at s =
        report_status-Replies p dates codecs coded services sound r h at id s

    execute_new-Replies :
        (at : ℕ) (found : Option TerminalAdminCommandResult) (s : S)
        → Answers
            (IsReply p dates codecs coded services sound r)
            (execute_new p codecs services r at found s)
    unfolding execute_new
    execute_new-Replies at none s = dispatch-Replies r.command h.command_ok at s
    execute_new-Replies at (some t) s =
        terminal-Replies p dates codecs coded services sound r h (some t) s

    execute_authorized-Replies :
        (at : ℕ) (a : CurrentAuthorizationResult) (s : S)
        → Answers
            (IsReply p dates codecs coded services sound r)
            (execute_authorized p codecs services r at a s)
    unfolding execute_authorized
    execute_authorized-Replies at a s = elim (Bool-cases (is_administrator a)) [
      | inl yes_admin ↦ elim (Bool-cases (is_status r.command)) [
        | inl status ↦ rw (yes_admin, status) (dispatch-Replies r.command h.command_ok at s)
        | inr other ↦
            rw (yes_admin, other)
              (sound.result_answers r.operation_id s ▷ λ found t _. execute_new-Replies at found t)
      ]
      | inr denied ↦
          rw denied (audited_failure-Replies p dates codecs coded services sound r h _ _ _ _ s)
    ]

    execute-Replies :
        (at : ℕ) (s : S)
        → Answers (IsReply p dates codecs coded services sound r) (execute p codecs services r at s)
    unfolding execute
    execute-Replies at s = elim (Bool-cases (is_expired r.expires_at at)) [
      | inl late ↦
          rw late (audited_failure-Replies p dates codecs coded services sound r h _ _ _ _ s)
      | inr open_still ↦
          rw open_still
            (sound.authorization_answers _ _ s ▷ λ a t _. execute_authorized-Replies at a t)
    ]

    -- Where dates read back what they wrote, and the texts of base64url and of a bigint are of the
    -- protocol's patterns; and every service but the validator answers, a page that is asked for with
    -- a positive limit with at most that many rows of the table and the identifier of a request to
    -- go on after, and an adjustment with a balance from 0 to that of a bigint column and a version:
    -- a request of the protocol is answered, whatever its command and however the validator fails,
    -- by a response of the protocol to this request and operation.
    pub execute-answered :
        (at : ℕ) (s : S)
        → (response : AdminCommandResponse) × (t : S) × (execute p codecs services r at s
            ≡ (some response, t))
          × IsReply p dates codecs coded services sound r response
    execute-answered at s = answer_of (execute-Replies at s)

    -- Where JSON and dates read back what they wrote, and the texts of base64url and of a bigint are
    -- of the protocol's patterns; and every service but the validator answers, a page that is asked
    -- for with a positive limit with at most that many rows of the table and the identifier of a
    -- request to go on after, and an adjustment with a balance from 0 to that of a bigint column and
    -- a version: the response to a request of the protocol is serialized if its text fits a frame,
    -- and whoever sent the request reads it as it was given.
    pub parse-execute :
        ReadsBack p
        → (at : ℕ) (s : S) (response : AdminCommandResponse) (t : S)
        → execute p codecs services r at s ≡ (some response, t)
        → Fits p (p.json_stringify (obj (response_fields response)))
        → (serialize_admin_command_response p response
            ≡ some (p.json_stringify (obj (response_fields response))))
          × (parse_admin_command_response p
                (text (p.json_stringify (obj (response_fields response))))
                (some r.request_id)
              ≡ some response)
    parse-execute back at s response t done fits =
        let reply = answered_value (execute-Replies at s) done in
        let read = parse-serialize_response p back response reply.valid fits in
        (
          read.0,
          subst
              (λ id.
                parse_admin_command_response p
                  (text (p.json_stringify (obj (response_fields response)))) (some id)
                ≡ some response)
              reply.same_request read.1,
        )
