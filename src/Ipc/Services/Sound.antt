-- ===== src/Ipc/Services/Sound.antt =====
-- What the application relies on in the services, and the lengths of a label.
use Prim.Native.Char.{code}
use waw_discord_bot.Prelude.{
  ℕ, ◌-◌, ◌≤◌, ◌≡◌, refl, Bool, true, false, ◌&&◌, Option, none, some, String, List, [], ◌∷◌, ℤ,
  pos, ◌≤ℤ◌, leb, length, all, arith, Bool-cases, inl, inr,
}
use waw_discord_bot.Kbo.Identifiers.{is_operation_id, is_snowflake, is_digit, codes, matches_from}
use waw_discord_bot.Ipc.Json.{Listed, is_version}
use waw_discord_bot.Ipc.Text.{is_cursor, is_amount, is_platform, text_length, code_units}
use waw_discord_bot.Ipc.Payload.{AdjustmentReason}
use waw_discord_bot.Ipc.Response.Parser.{is_sized}
use waw_discord_bot.Ipc.Label.{label, take_units, drop_spaces, drop_last_spaces, units, is_empty}
use waw_discord_bot.Ipc.Services.{
  Effect, Answers, PendingRiotLinkRequest, Page, page, duplicate, cursor_invalid, Adjustment,
  adjusted, Decided, Services, Codecs,
}

text_length-take_units : (n : ℕ) (s : String) → text_length (take_units n s) ≤ n
unfolding take_units text_length
text_length-take_units n String.[] = omega arith
text_length-take_units n (String.◌∷◌ c s) = elim (Bool-cases (leb (units (code c)) n)) [
  | inl t ↦ rw t (ground (arith, text_length-take_units (n - units (code c)) s))
  | inr f ↦ rw f (omega arith)
]

text_length-pos : (s : String) → is_empty s ≡ false → 1 ≤ text_length s
unfolding text_length
text_length-pos String.[] h = absurd (ground arith)
text_length-pos (String.◌∷◌ c s) h = ground arith

code_units-digits : (cs : List ℕ) → all is_digit cs ≡ true → code_units cs ≡ length cs
unfolding code_units is_digit
code_units-digits [] h = refl
code_units-digits (c ∷ cs) h = ground (arith, code_units-digits cs)

snowflake-code_units :
    (cs : List ℕ)
    → matches_from (λ c. leb b'1' c && leb c b'9') is_digit 16 19 cs ≡ true
    → (1 ≤ code_units cs) × (code_units cs ≤ 80)
unfolding code_units
snowflake-code_units [] h = absurd (cc)
snowflake-code_units (c ∷ cs) h = ground (arith, code_units-digits cs)

snowflake-length : (id : String) → is_snowflake id ≡ true → is_sized 1 80 id ≡ true
unfolding is_snowflake text_length
snowflake-length id h = ground (arith, snowflake-code_units (codes id) h)

-- A label is never empty and has at most 80 code units.
pub label-is_sized :
    (name : Option String) (id : String)
    → is_snowflake id ≡ true
    → is_sized 1 80 (label name id) ≡ true
unfolding label
label-is_sized none id h = snowflake-length id h
label-is_sized (some name) id h =
    let cut : String = take_units 80 (drop_last_spaces (drop_spaces name)) in
    elim (Bool-cases (is_empty cut)) [
      | inl e ↦ rw e (snowflake-length id h)
      | inr e ↦ rw e (
          ground (
            arith,
            text_length-take_units 80 (drop_last_spaces (drop_spaces name)),
            text_length-pos cut e,
          ))
    ]

-- A row of a request that is pending, as the table has it.
abbrev pub is_row : PendingRiotLinkRequest → Bool
is_row i =
    is_operation_id i.request_id
    && is_snowflake i.discord_user_id
    && is_platform i.platform_id
    && is_sized 1 32 i.game_name
    && is_sized 2 8 i.tag_line
    && is_version i.version

abbrev pub IsNextCursor : Option String → Type 0
IsNextCursor none = Unit
IsNextCursor (some id) = is_operation_id id ≡ true

-- A page of at most as many rows as were asked for.
abbrev pub IsPage : ℤ → Page → Type 0
IsPage limit (page requests next) =
    (pos (length requests) ≤ℤ limit) × (all is_row requests ≡ true) × IsNextCursor next
IsPage limit (duplicate found) = Unit
IsPage limit cursor_invalid = Unit

abbrev pub IsAdjustment : Adjustment → Type 0
IsAdjustment (adjusted balance version) =
    (pos 0 ≤ℤ balance) × (balance ≤ℤ pos 9223372036854775807) × (is_version version ≡ true)
IsAdjustment _ = Unit

abbrev pub AdjustsWell :
    {S : Type 0} → Option (Decided → ℤ → Listed AdjustmentReason → Effect S Adjustment) → Type 0
AdjustsWell none = Unit
AdjustsWell (some change) =
    (d : Decided) (delta : ℤ) (reason : Listed AdjustmentReason) (s : _)
    → Answers IsAdjustment (change d delta reason s)

abbrev pub NamesWell : {S : Type 0} → Option (String → Effect S (Option String)) → Type 0
NamesWell none = Unit
NamesWell (some read) = (id : String) (s : _) → Answers (λ name. Unit {0}) (read id s)

-- Every service answers, but for the validator, which may fail. A page that is asked for with a
-- positive limit has at most that many rows, each of which is one of the table, and goes on after
-- the identifier of a request; an adjusted balance is at least 0 and one of a bigint column, and its
-- version is a version.
pub record AreSound {S : Type 0} (services : Services S) : Type 0 where
  pub authorization_answers :
      (actor guild : String) (s : S)
      → Answers (λ a. Unit {0}) (services.read_current_authorization actor guild s)
  pub page_answers :
      (audit : _) (limit : ℤ) (after : Option String) (s : S)
      → pos 1 ≤ℤ limit
      → Answers (IsPage limit) (services.list_pending_page_with_result audit limit after s)
  pub pending_answers : (id : String) (s : S) → Answers (λ a. Unit {0}) (services.find_pending id s)
  pub approval_answers :
      (d : Decided) (link puuid : String) (s : S)
      → Answers (λ a. Unit {0}) (services.approve_request_with_audit d link puuid s)
  pub rejection_answers :
      (d : Decided) (s : S) → Answers (λ a. Unit {0}) (services.reject_request_with_audit d s)
  pub removal_answers :
      (d : Decided) (s : S) → Answers (λ a. Unit {0}) (services.remove_link_with_audit d s)
  pub audit_answers :
      (event : _) (name : String) (s : S)
      → Answers (λ a. Unit {0}) (services.record_admin_audit event name s)
  pub result_answers :
      (id : String) (s : S) → Answers (λ a. Unit {0}) (services.find_admin_command_result id s)
  pub adjustment_answers : AdjustsWell services.adjust
  pub incident_answers :
      (operation incident : String) (version : ℤ) (actor : String) (action : _) (reason : String)
      (at : ℕ) (name : String) (s : S)
      → Answers
          (λ a. Unit {0})
          (services.mutate_admin_incident_with_audit operation incident version actor action reason
            at name s)
  pub names_answer : NamesWell services.display_name

-- The texts of base64url and of a bigint are of the protocol's patterns.
pub record AreCodecs (codecs : Codecs) : Type 0 where
  pub cursor_text :
      (id : String) → is_operation_id id ≡ true → is_cursor (codecs.to_base64url id) ≡ true
  pub amount_text :
      (z : ℤ) → pos 0 ≤ℤ z → z ≤ℤ pos 9223372036854775807 → is_amount (codecs.digits z) ≡ true
