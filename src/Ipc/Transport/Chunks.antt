-- ===== src/Ipc/Transport/Chunks.antt =====
-- Chunks of a line: what the searches of the source find in a line and in a part of it.
use waw_discord_bot.Prelude.{
  ℕ, suc, ◌≤◌, ◌≡◌, refl, ap, false, none, some, List, [], ◌∷◌, ◌++◌, length, length-append, arith,
}
use waw_discord_bot.Ipc.Transport.{Buffer, line_feed, includes, index_of, take, last, one_frame}

-- What node gives to a callback is never empty.
abbrev pub IsChunk : Buffer → Type 0
IsChunk [] = ⊥
IsChunk (b ∷ bs) = Unit {0}

abbrev pub joined : List Buffer → Buffer
joined [] = []
joined (c ∷ cs) = c ++ joined cs

abbrev pub line_of : Buffer → Buffer
line_of frame = frame ++ (line_feed ∷ [])

pub append_nil : (xs : Buffer) → xs ++ [] ≡ xs
append_nil [] = refl
append_nil (x ∷ xs) = ap (◌∷◌ x) (append_nil xs)

pub append_assoc : (xs ys zs : Buffer) → (xs ++ ys) ++ zs ≡ xs ++ (ys ++ zs)
append_assoc [] ys zs = refl
append_assoc (x ∷ xs) ys zs = ap (◌∷◌ x) (append_assoc xs ys zs)

-- A line that has more after a part has all of the part in its frame.
pub prefix-frame :
    (xs : Buffer) (y : ℕ) (ys frame : Buffer)
    → xs ++ (y ∷ ys) ≡ line_of frame
    → (rest : Buffer) × (frame ≡ xs ++ rest)
prefix-frame [] y ys frame h = (frame, refl)
prefix-frame (x ∷ xs) y ys [] h = absurd (omega (arith, ap length h, length-append xs (y ∷ ys)))
prefix-frame (x ∷ xs) y ys (f ∷ frame) h =
    let tails : xs ++ (y ∷ ys) ≡ line_of frame = cc in
    let heads : f ≡ x = cc in let (rest, same) = prefix-frame xs y ys frame tails in (rest, cc)

pub includes-prefix :
    (byte : ℕ) (xs ys : Buffer) → includes byte (xs ++ ys) ≡ false → includes byte xs ≡ false
unfolding includes
includes-prefix byte [] ys h = refl
includes-prefix byte (x ∷ xs) ys h = ground (arith, includes-prefix byte xs ys)

pub index_of-none : (byte : ℕ) (xs : Buffer) → includes byte xs ≡ false → index_of byte xs ≡ none
unfolding includes index_of
index_of-none byte [] h = refl
index_of-none byte (x ∷ xs) h = ground (arith, index_of-none byte xs)

pub index_of-line :
    (xs : Buffer)
    → includes line_feed xs ≡ false
    → index_of line_feed (line_of xs) ≡ some (length xs)
unfolding includes index_of
index_of-line [] h = refl
index_of-line (x ∷ xs) h = ground (arith, index_of-line xs)

pub take-line : (xs ys : Buffer) → take (length xs) (xs ++ ys) ≡ xs
unfolding take
take-line [] [] = refl
take-line [] (y ∷ ys) = refl
take-line (x ∷ xs) ys = ap (◌∷◌ x) (take-line xs ys)

last-line : (xs : Buffer) → last (line_of xs) ≡ some line_feed
unfolding last
last-line [] = refl
last-line (x ∷ []) = refl
last-line (x ∷ y ∷ xs) = last-line (y ∷ xs)

pub length-line : (xs : Buffer) → length (line_of xs) ≡ suc (length xs)
length-line xs = omega (arith, length-append xs (line_feed ∷ []))

pub one_frame-line :
    (xs : Buffer)
    → includes line_feed xs ≡ false
    → 1 ≤ length xs
    → length xs ≤ 32768
    → one_frame (line_of xs) ≡ some xs
unfolding one_frame
one_frame-line xs h low high =
    ground (arith, length-line xs, last-line xs, take-line xs (line_feed ∷ []))
