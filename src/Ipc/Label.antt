-- ===== src/Ipc/Label.antt =====
-- The label of a requester in src/ipc/admin-command-application.ts: `trim().slice(0, 80)`, over the
-- code points of a text. A pair that the cut would split is left out whole, since a native text holds
-- no half of a pair.
use Prim.Native.Char.{code}
use waw_discord_bot.Prelude.{
  ℕ, ◌-◌, Bool, true, false, ◌&&◌, Option, none, some, String, ltb, leb, if◌then◌else◌,
}
use waw_discord_bot.Ipc.Text.{is_space}

unfoldable pub drop_spaces : String → String
drop_spaces String.[] = String.[]
drop_spaces (String.◌∷◌ c s) = if is_space (code c) then drop_spaces s else String.◌∷◌ c s

abbrev pub is_empty : String → Bool
is_empty String.[] = true
is_empty (String.◌∷◌ c s) = false

unfoldable pub drop_last_spaces : String → String
drop_last_spaces String.[] = String.[]
drop_last_spaces (String.◌∷◌ c s) =
    let rest = drop_last_spaces s in
    if is_space (code c) && is_empty rest then String.[] else String.◌∷◌ c rest

abbrev pub units : ℕ → ℕ
units c = if ltb c 65536 then 1 else 2

unfoldable pub take_units : ℕ → String → String
take_units n String.[] = String.[]
take_units n (String.◌∷◌ c s) =
    let rest = take_units (n - units (code c)) s in
    if leb (units (code c)) n then String.◌∷◌ c rest else String.[]

-- `displayName?.trim().slice(0, 80) || item.discordUserId`
unfoldable pub label : Option String → (discord_user_id : String) → String
unfolding take_units drop_last_spaces drop_spaces
label none id = id
label (some name) id =
    let cut = take_units 80 (drop_last_spaces (drop_spaces name)) in
    if is_empty cut then id else cut
