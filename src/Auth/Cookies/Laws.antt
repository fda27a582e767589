-- ===== src/Auth/Cookies/Laws.antt =====
-- What the readers of cookies find.
use waw_discord_bot.Prelude.{
  ◌≡◌, ◌↔◌, refl, ap, ◌∙◌, true, Option, none, some, List, [], ◌∷◌, ◌++◌, arith, Bool-cases,
  Option-cases, inl, inr, ◌>>=◌, if◌then◌else◌,
}
use mathlib.Core.List.{append-nil, append_assoc}
use waw_discord_bot.Auth.Cookies.{
  Chars, same, CookieMap, get, push, split, parse_segment, parse_segments, parse_cookies,
  SessionCredential, invalid, session_of, session_cookie_name, read_session_credential,
}

pub same_iff : (a b : Chars) → (same a b ≡ true) ↔ (a ≡ b)
unfolding same
same_iff [] [] = (λ h. refl, λ h. refl)
same_iff [] (b ∷ bs) = (λ h. cc, λ h. cc)
same_iff (a ∷ more) [] = (λ h. cc, λ h. cc)
same_iff (a ∷ more) (b ∷ bs) = ground (arith, same_iff more bs)

pub same_refl : (a : Chars) → same a a ≡ true
same_refl a = (same_iff a a).1 refl

-- The values of a name among pairs, in their order.
unfoldable pub named : Chars → List (Chars × Chars) → List Chars
named name [] = []
named name ((key, value) ∷ pairs) =
    if same key name then value ∷ named name pairs else named name pairs

-- All segments, if each is a pair.
unfoldable pub pairs_of : List Chars → Option (List (Chars × Chars))
pairs_of [] = some []
pairs_of (segment ∷ segments) = do
  pair ← parse_segment segment
  pairs ← pairs_of segments
  some (pair ∷ pairs)

abbrev pub values_in : Chars → CookieMap → List Chars
values_in name parsed = elim (get name parsed) [ none ↦ [] | some values ↦ values ]

-- A key of the map has a value.
abbrev HasValues : CookieMap → Type 0
HasValues [] = Unit {0}
HasValues ((key, []) ∷ rest) = ⊥
HasValues ((key, value ∷ values) ∷ rest) = HasValues rest

get-push :
    (name key value : Chars) (parsed : CookieMap)
    → get name (push key value parsed)
      ≡ (if same key name then some (values_in name parsed ++ (value ∷ [])) else get name parsed)
unfolding get push
get-push name key value [] = refl
get-push name key value ((other, values) ∷ rest) = ground (
  arith,
  same_iff other key,
  same_iff other name,
  same_iff key name,
  get-push name key value rest,
)

-- The values of a key of a map, which has no key without values.
abbrev pub listed : List Chars → Option (List Chars)
listed [] = none
listed (value ∷ values) = some (value ∷ values)

listed-snoc : (vs : List Chars) (v : Chars) → listed (vs ++ (v ∷ [])) ≡ some (vs ++ (v ∷ []))
listed-snoc [] v = refl
listed-snoc (w ∷ vs) v = refl

values_in-listed :
    (name : Chars) (parsed : CookieMap) (vs : List Chars)
    → get name parsed ≡ listed vs
    → values_in name parsed ≡ vs
values_in-listed name parsed [] h = ground arith
values_in-listed name parsed (v ∷ vs) h = ground arith

get-push_listed :
    (name key value : Chars) (parsed : CookieMap) (vs : List Chars)
    → get name parsed ≡ listed vs
    → get name (push key value parsed) ≡ listed (if same key name then vs ++ (value ∷ []) else vs)
get-push_listed name key value parsed vs h = elim (Bool-cases (same key name)) [
  | inl this ↦
      get-push name key value parsed
      ∙ rw (this, values_in-listed name parsed vs h, listed-snoc vs value) refl
  | inr that ↦ get-push name key value parsed ∙ rw (that) h
]

module _ (name : Chars) where
  named-cons :
      (key value : Chars) (vs : List Chars) (pairs : List (Chars × Chars))
      → (if same key name then vs ++ (value ∷ []) else vs) ++ named name pairs
        ≡ vs ++ named name ((key, value) ∷ pairs)
  unfolding named
  named-cons key value vs pairs = elim (Bool-cases (same key name)) [
    | inl this ↦ rw (this) (append_assoc vs (value ∷ []) (named name pairs))
    | inr that ↦ rw (that) refl
  ]

  regroup :
      (key value : Chars) (vs : List Chars) (m : Option (List (Chars × Chars)))
      → (m >>= λ pairs.
          some (listed ((if same key name then vs ++ (value ∷ []) else vs) ++ named name pairs)))
        ≡ ((m >>= λ pairs. some ((key, value) ∷ pairs)) >>= λ pairs.
            some (listed (vs ++ named name pairs)))
  regroup key value vs none = refl
  regroup key value vs (some pairs) = ap (λ x. some (listed x)) (named-cons key value vs pairs)

  -- The map that the loop makes has the values of the pairs, after those that it had.
  pub get-parse_segments :
      (segments : List Chars) (parsed : CookieMap) (vs : List Chars)
      → get name parsed ≡ listed vs
      → (parse_segments segments parsed >>= λ m. some (get name m))
        ≡ (pairs_of segments >>= λ pairs. some (listed (vs ++ named name pairs)))
  unfolding parse_segments pairs_of named
  get-parse_segments [] parsed vs h = rw (append-nil vs, h) refl
  get-parse_segments (segment ∷ segments) parsed vs h =
      elim (Option-cases (parse_segment segment)) [
        | inl bad ↦ rw (bad) refl
        | inr ((key, value), good) ↦
            let rest =
              get-parse_segments segments (push key value parsed)
                (if same key name then vs ++ (value ∷ []) else vs)
                (get-push_listed name key value parsed vs h) in
            rw (good) (rest ∙ regroup key value vs (pairs_of segments))
      ]

-- The pairs of a header, each of its segments being one.
abbrev pub pairs_in : Chars → Option (List (Chars × Chars))
pairs_in header = pairs_of (split b';' header)

-- A credential by its description: the only value of the name.
abbrev pub credential_of : Option (List (Chars × Chars)) → SessionCredential
credential_of none = invalid
credential_of (some pairs) = session_of (listed (named session_cookie_name pairs))

abbrev credential_read : Option (Option (List Chars)) → SessionCredential
credential_read none = invalid
credential_read (some values) = session_of values

read_map :
    (m : Option CookieMap)
    → (elim m as (λ o. SessionCredential) [
      | none ↦ invalid
      | some parsed ↦ session_of (get session_cookie_name parsed)
    ])
      ≡ credential_read (m >>= λ parsed. some (get session_cookie_name parsed))
read_map none = refl
read_map (some parsed) = refl

read_pairs :
    (m : Option (List (Chars × Chars)))
    → credential_read (m >>= λ pairs. some (listed (named session_cookie_name pairs)))
      ≡ credential_of m
read_pairs none = refl
read_pairs (some pairs) = refl

-- The credential that a header is read as is that of its description: a header with a segment that
-- is no pair has an invalid one, and otherwise the credential is the only value of the name of the
-- session's cookie among the pairs of the header, missing if there is none and invalid if there are
-- more or it is not well-formed.
pub read_session_credential-eq :
    (header : Chars) → read_session_credential (some header) ≡ credential_of (pairs_in header)
unfolding read_session_credential parse_cookies pairs_of
read_session_credential-eq [] = refl
read_session_credential-eq (c ∷ cs) =
    read_map (parse_segments (split b';' (c ∷ cs)) [])
    ∙ ap credential_read (get-parse_segments session_cookie_name (split b';' (c ∷ cs)) [] [] refl)
    ∙ read_pairs (pairs_of (split b';' (c ∷ cs)))
