-- ===== src/Auth/Cookies/Segments.antt =====
-- The segments of a header without white space and separators in its values.
use waw_discord_bot.Prelude.{
  Bool-cases, inl, inr, ◌⊎◌, ap, ℕ, ◌≡◌, refl, Bool, true, false, ◌≢◌, ◌≤◌, not, ◌&&◌, [], ◌∷◌,
  ◌++◌, all, ◌==◌, arith,
}
use mathlib.Core.List.{reverse, reverse_aux, reverse-reverse}
use waw_discord_bot.Kbo.Identifiers.{is_alphanumeric, is_digit}
use waw_discord_bot.Auth.Cookies.{
  Chars, trim_start, trim, split, is_space, is_value_char, is_token_char,
}

-- A code unit that neither ends a segment nor is trimmed.
abbrev pub is_inner : ℕ → Bool
is_inner c = not (is_space c) && not (c == b';')

pub all-implies :
    (p q : ℕ → Bool) (s : Chars)
    → ((c : ℕ) → p c ≡ true → q c ≡ true)
    → all p s ≡ true
    → all q s ≡ true
all-implies p q [] implies h = refl
all-implies p q (c ∷ cs) implies h = ground (arith, implies c, all-implies p q cs implies)

pub split_and : (a b : Bool) → (a && b) ≡ true → (a ≡ true) × (b ≡ true)
split_and true b h = (refl, h)
split_and false b h = absurd (cc)

is_false : (a : Bool) → not a ≡ true → a ≡ false
is_false true h = absurd (cc)
is_false false h = refl

-- The first character of an inner text, and the others.
inner-cons :
    (c : ℕ) (cs : Chars)
    → all is_inner (c ∷ cs) ≡ true
    → (is_space c ≡ false) × ((c == b';') ≡ false) × (all is_inner cs ≡ true)
inner-cons c cs h =
    let (this, rest) = split_and (is_inner c) (all is_inner cs) h in
    let (space, ends) = split_and (not (is_space c)) (not (c == b';')) this in
    (is_false (is_space c) space, is_false (c == b';') ends, rest)

pub all-reverse_aux :
    (p : ℕ → Bool) (s t : Chars) → all p s ≡ true → all p t ≡ true → all p (reverse_aux s t) ≡ true
all-reverse_aux p [] t h k = k
all-reverse_aux p (c ∷ cs) t h k = all-reverse_aux p cs (c ∷ t) (ground arith) (ground arith)

trim_start-inner : (s : Chars) → all is_inner s ≡ true → trim_start s ≡ s
unfolding trim_start
trim_start-inner [] h = refl
trim_start-inner (c ∷ cs) h = let (space, ends, rest) = inner-cons c cs h in rw (space) refl

pub trim-inner : (s : Chars) → all is_inner s ≡ true → trim s ≡ s
unfolding trim
trim-inner s h =
    rw (trim_start-inner s h, trim_start-inner (reverse s) (all-reverse_aux is_inner s [] h refl))
      (reverse-reverse s)

-- A code unit that does not end a segment.
abbrev pub is_within : ℕ → Bool
is_within c = not (c == b';')

inner-within : (s : Chars) → all is_inner s ≡ true → all is_within s ≡ true
inner-within s =
    all-implies is_inner is_within s (λ c h. (split_and (not (is_space c)) (is_within c) h).1)

pub split-within : (s : Chars) → all is_within s ≡ true → split b';' s ≡ s ∷ []
unfolding split
split-within [] h = refl
split-within (c ∷ cs) h =
    let (this, rest) = split_and (is_within c) (all is_within cs) h in
    rw (is_false (c == b';') this, split-within cs rest) refl

pub split-append_within :
    (s rest : Chars)
    → all is_within s ≡ true
    → split b';' (s ++ (b';' ∷ rest)) ≡ s ∷ split b';' rest
unfolding split
split-append_within [] rest h = refl
split-append_within (c ∷ cs) rest h =
    let (this, others) = split_and (is_within c) (all is_within cs) h in
    rw (is_false (c == b';') this, split-append_within cs rest others) refl

pub split-append :
    (s rest : Chars) → all is_inner s ≡ true → split b';' (s ++ (b';' ∷ rest)) ≡ s ∷ split b';' rest
split-append s rest h = split-append_within s rest (inner-within s h)

-- A header is one segment, or a segment, a separator and a header.
pub split-cases :
    (s : Chars)
    → (all is_within s ≡ true)
      ⊎ ((part : Chars) × (rest : Chars) × (s ≡ part ++ (b';' ∷ rest))
          × (all is_within part ≡ true))
split-cases [] = inl refl
split-cases (c ∷ cs) = elim (Bool-cases (c == b';')) [
  | inl ends ↦ let same : c ≡ b';' = ground arith in inr ([], cs, ap (λ x. x ∷ cs) same, refl)
  | inr other ↦ elim (split-cases cs) [
    | inl within ↦ inl (rw (other) within)
    | inr (part, rest, same, within) ↦ inr (c ∷ part, rest, ap (λ r. c ∷ r) same, rw (other) within)
  ]
]

is_token_char-bounds : (c : ℕ) → is_token_char c ≡ true → (45 ≤ c) × (c ≤ 122) × (c ≢ 59)
unfolding is_token_char is_alphanumeric is_digit
is_token_char-bounds c h = ground arith

between-inner : (c : ℕ) → 45 ≤ c → c ≤ 122 → c ≢ 59 → is_inner c ≡ true
between-inner c lo hi apart = ground arith

pub token-inner : (s : Chars) → all is_token_char s ≡ true → all is_inner s ≡ true
token-inner s =
    all-implies is_token_char is_inner s
      (λ c h. let (lo, hi, apart) = is_token_char-bounds c h in between-inner c lo hi apart)

pub token-value : (s : Chars) → all is_token_char s ≡ true → all is_value_char s ≡ true
token-value s =
    all-implies is_token_char is_value_char s
      (λ c h. let (lo, hi, apart) = is_token_char-bounds c h in ground arith)

pub trim-space : (s : Chars) → trim (b' ' ∷ s) ≡ trim s
unfolding trim trim_start
trim-space s = refl

pub split-space : (s : Chars) → all is_inner s ≡ true → split b';' (b' ' ∷ s) ≡ (b' ' ∷ s) ∷ []
unfolding split
split-space s h = rw (split-within s (inner-within s h)) refl
