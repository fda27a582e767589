-- ===== src/Prelude/Js.antt =====
-- The values of JavaScript that the source tests at run time: `Date` and `number`.
use Prim.Native.Nat.{ℕ}
use mathlib.Core.Bool.{Bool, true, false, ◌&&◌}
use waw_discord_bot.Prelude.Int.{ℤ, pos, negsuc, leb_ℤ}

-- A `Date`: an instant in milliseconds since the epoch, or the invalid date, whose time is NaN.
pub data Date : Type 0 where
  invalid_date : Date
  instant : ℕ → Date

-- `Number.isFinite(date.getTime())`
abbrev pub is_finite : Date → Bool
is_finite invalid_date = false
is_finite (instant t) = true

-- A `number`: an integer, or a fraction, an infinity or NaN.
pub data Number : Type 0 where
  int : ℤ → Number
  not_integer : Number

abbrev pub max_safe_integer : ℕ
max_safe_integer = 9007199254740991

abbrev pub is_safe_integer : Number → Bool
is_safe_integer (int z) = leb_ℤ (negsuc 9007199254740990) z && leb_ℤ z (pos max_safe_integer)
is_safe_integer not_integer = false
