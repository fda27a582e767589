-- ===== src/Auth/Cookies/Pairs.antt =====
-- The segments that are pairs, by their description.
use waw_discord_bot.Prelude.{
  ℕ, ◌≡◌, ◌∙◌, ◌≤◌, ◌≢◌, refl, ap, sym, subst, Bool, true, false, ◌&&◌, Option, some, [], ◌∷◌, ◌++◌,
  all, ◌==◌, arith, Bool-cases, Option-cases, inl, inr,
}
use mathlib.Core.List.{reverse, reverse-reverse, reverse-append}
use waw_discord_bot.Kbo.Identifiers.{is_alphanumeric, is_digit}
use waw_discord_bot.Auth.Cookies.{
  Chars, trim_start, trim, cut, is_space, is_value_char, is_name_char, checked_pair, parse_segment,
}
use waw_discord_bot.Auth.Cookies.Segments.{all-implies, all-reverse_aux, split_and}

-- A segment with white space around a name, `=` and a value: the name has characters of a token and
-- at least one, the value visible ones of ASCII.
pub record IsPair (segment name value : Chars) : Type 0 where
  pub before : Chars
  pub after : Chars
  pub padded : segment ≡ before ++ ((name ++ (b'=' ∷ value)) ++ after)
  pub before_space : all is_space before ≡ true
  pub after_space : all is_space after ≡ true
  pub named : name ≢ []
  pub name_ok : all is_name_char name ≡ true
  pub value_ok : all is_value_char value ≡ true

trim_start-drops : (s : Chars) → (sp : Chars) × (s ≡ sp ++ trim_start s) × (all is_space sp ≡ true)
unfolding trim_start
trim_start-drops [] = ([], refl, refl)
trim_start-drops (c ∷ cs) = elim (Bool-cases (is_space c)) [
  | inl space ↦
      let (sp, same, spaces) = trim_start-drops cs in
      (c ∷ sp, rw (space) (ap (λ r. c ∷ r) same), rw (space) spaces)
  | inr other ↦ ([], rw (other) refl, refl)
]

trim-drops :
    (s : Chars)
    → (before : Chars) × (after : Chars) × (s ≡ before ++ (trim s ++ after))
      × (all is_space before ≡ true)
      × (all is_space after ≡ true)
unfolding trim
trim-drops s =
    let (sp, same, spaces) = trim_start-drops s in
    let (sp', same', spaces') = trim_start-drops (reverse (trim_start s)) in
    (
      sp,
      reverse sp',
      same
          ∙ ap (λ u. sp ++ u)
              (sym (reverse-reverse (trim_start s))
                ∙ ap (λ (u : Chars). reverse u) same'
                ∙ reverse-append sp' (trim_start (reverse (trim_start s)))),
      spaces,
      all-reverse_aux is_space sp' [] spaces' refl,
    )

trim_start-spaces : (sp s : Chars) → all is_space sp ≡ true → trim_start (sp ++ s) ≡ trim_start s
unfolding trim_start
trim_start-spaces [] s h = refl
trim_start-spaces (c ∷ cs) s h =
    let (space, spaces) = split_and (is_space c) (all is_space cs) h in
    rw (space) (trim_start-spaces cs s spaces)

visible-not_space : (c : ℕ) → is_value_char c ≡ true → is_space c ≡ false
visible-not_space c h = ground arith

trim_start-visible : (c : ℕ) (cs : Chars) → is_value_char c ≡ true → trim_start (c ∷ cs) ≡ c ∷ cs
unfolding trim_start
trim_start-visible c cs h = rw (visible-not_space c h) refl

trim_start-all_visible : (s : Chars) → all is_value_char s ≡ true → trim_start s ≡ s
unfolding trim_start
trim_start-all_visible [] h = refl
trim_start-all_visible (c ∷ cs) h =
    trim_start-visible c cs (split_and (is_value_char c) (all is_value_char cs) h).0

trim-padded :
    (before after : Chars) (c : ℕ) (cs : Chars)
    → all is_space before ≡ true
    → all is_space after ≡ true
    → all is_value_char (c ∷ cs) ≡ true
    → trim (before ++ ((c ∷ cs) ++ after)) ≡ c ∷ cs
unfolding trim
trim-padded before after c cs spaces spaces' visible =
    rw
      (
        trim_start-spaces before (c ∷ (cs ++ after)) spaces,
        trim_start-visible c (cs ++ after)
            (split_and (is_value_char c) (all is_value_char cs) visible).0,
        reverse-append (c ∷ cs) after,
        trim_start-spaces (reverse after) (reverse (c ∷ cs))
            (all-reverse_aux is_space after [] spaces' refl),
        trim_start-all_visible (reverse (c ∷ cs))
            (all-reverse_aux is_value_char (c ∷ cs) [] visible refl),
      )
      (reverse-reverse (c ∷ cs))

name_char-bounds : (c : ℕ) → is_name_char c ≡ true → (33 ≤ c) × (c ≤ 126) × (c ≢ 61)
unfolding is_name_char is_alphanumeric is_digit
name_char-bounds c h = ground arith

name_char-value : (c : ℕ) → is_name_char c ≡ true → is_value_char c ≡ true
name_char-value c h = let (lo, hi, apart) = name_char-bounds c h in ground arith

-- The separator that is found is the first one.
cut-some :
    (separator : ℕ) (s a b : Chars) → cut separator s ≡ some (a, b) → s ≡ a ++ (separator ∷ b)
unfolding cut
cut-some separator [] a b h = absurd (cc)
cut-some separator (c ∷ cs) a b h = elim (Bool-cases (c == separator)) [
  | inl this ↦
      let same : c ≡ separator = ground arith in
      let found : ◌≡◌ {A = Option (Chars × Chars)} (some ([], cs)) (some (a, b)) =
        rw (this, cut) at h in
      let empty : ◌≡◌ {A = Chars} [] a = cc in
      let rest : cs ≡ b = cc in rw (← empty, same, rest) refl
  | inr other ↦ elim (Option-cases (cut separator cs)) [
    | inl missing ↦ absurd (ground arith)
    | inr ((x, y), found) ↦
        let made : ◌≡◌ {A = Option (Chars × Chars)} (some (c ∷ x, y)) (some (a, b)) =
          rw (other, found, cut) at h in
        let first : ◌≡◌ {A = Chars} (c ∷ x) a = cc in
        let rest : y ≡ b = cc in
        rw (← first, ← rest) (ap (λ r. c ∷ r) (cut-some separator cs x y found))
  ]
]

cut-append : (a b : Chars) → all is_name_char a ≡ true → cut b'=' (a ++ (b'=' ∷ b)) ≡ some (a, b)
unfolding cut
cut-append [] b h = refl
cut-append (c ∷ cs) b h =
    let (this, rest) = split_and (is_name_char c) (all is_name_char cs) h in
    let (lo, hi, apart) = name_char-bounds c this in
    let other : (c == b'=') ≡ false = ground arith in rw (other, cut-append cs b rest) refl

checked_pair-some :
    (a b name value : Chars)
    → checked_pair (a, b) ≡ some (name, value)
    → (a ≡ name)
      × (b ≡ value)
      × (name ≢ [])
      × (all is_name_char name ≡ true)
      × (all is_value_char value ≡ true)
checked_pair-some [] b name value h = absurd (cc)
checked_pair-some (n ∷ ns) b name value h =
    elim (Bool-cases (all is_name_char (n ∷ ns) && all is_value_char b)) [
      | inr bad ↦ absurd (ground arith)
      | inl good ↦
          let (names, values) = split_and (all is_name_char (n ∷ ns)) (all is_value_char b) good in
          let made : ◌≡◌ {A = Option (Chars × Chars)} (some (n ∷ ns, b)) (some (name, value)) =
            rw (good, checked_pair) at h in
          let first : ◌≡◌ {A = Chars} (n ∷ ns) name = cc in
          let rest : b ≡ value = cc in
          (
            first,
            rest,
            λ (empty : name ≡ []). (let bad : ◌≡◌ {A = Chars} (n ∷ ns) [] = first ∙ empty in cc),
            subst (λ x. all is_name_char x ≡ true) first names,
            subst (λ x. all is_value_char x ≡ true) rest values,
          )
    ]

pub parse_segment-IsPair :
    (segment name value : Chars)
    → parse_segment segment ≡ some (name, value)
    → IsPair segment name value
unfolding parse_segment
parse_segment-IsPair segment name value h = elim (Option-cases (cut b'=' (trim segment))) [
  | inl missing ↦ absurd (ground arith)
  | inr ((a, b), found) ↦
      let (first, rest, named, names, values) =
        checked_pair-some a b name value (rw (found, parse_segment) at h) in
      let (before, after, padded, spaces, spaces') = trim-drops segment in
      record {
        before = before;
        after = after;
        padded =
            padded
            ∙ ap (λ t. before ++ (t ++ after))
                (cut-some b'=' (trim segment) a b found
                  ∙ ap (λ x. x ++ (b'=' ∷ b)) first
                  ∙ ap (λ y. name ++ (b'=' ∷ y)) rest);
        before_space = spaces;
        after_space = spaces';
        named = named;
        name_ok = names;
        value_ok = values;
      }
]

all-append : (p : ℕ → Bool) (s t : Chars) → all p s ≡ true → all p t ≡ true → all p (s ++ t) ≡ true
all-append p [] t h k = k
all-append p (c ∷ cs) t h k = ground (arith, all-append p cs t)

pub IsPair-parse_segment :
    (segment name value : Chars)
    → IsPair segment name value
    → parse_segment segment ≡ some (name, value)
unfolding parse_segment
IsPair-parse_segment segment [] value h = absurd (h.named refl)
IsPair-parse_segment segment (n ∷ ns) value h =
    rw
      (
        h.padded,
        trim-padded h.before h.after n (ns ++ (b'=' ∷ value)) h.before_space h.after_space (
            all-append is_value_char (n ∷ ns) (b'=' ∷ value)
              (all-implies is_name_char is_value_char (n ∷ ns) name_char-value h.name_ok)
              h.value_ok),
        cut-append (n ∷ ns) value h.name_ok,
        h.name_ok,
        h.value_ok,
      )
      refl
