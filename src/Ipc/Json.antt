-- ===== src/Ipc/Json.antt =====
-- The values that `JSON.parse` gives, and the tests on them that src/contracts/admin-command-ipc.ts
-- makes: `isObject`, `hasExactKeys`, `hasExactOptionalKeys`, `isPattern`, `isVersion`.
use waw_discord_bot.Prelude.{
  Bool, true, false, ◌&&◌, ◌||◌, Option, none, some, String, str_eq, List, [], ◌∷◌, all, any, ℤ,
  pos, leb_ℤ, Number, int, not_integer, is_safe_integer, sort, if◌then◌else◌,
}

-- The fields of an object have distinct names, in the order in which they were written.
mutual
  pub data Json : Type 0 where
    null : Json
    bool : Bool → Json
    num : Number → Json
    str : String → Json
    arr : Items → Json
    obj : Fields → Json

  pub data Items : Type 0 where
    nil : Items
    cons : Json → Items → Items

  pub data Fields : Type 0 where
    end : Fields
    field : String → Json → Fields → Fields

-- Every number in the value is an integer, so that its text is exact.
unfoldable mutual
  pub is_exact : Json → Bool
  is_exact null = true
  is_exact (bool b) = true
  is_exact (num (int z)) = true
  is_exact (num not_integer) = false
  is_exact (str s) = true
  is_exact (arr xs) = is_exact_items xs
  is_exact (obj fs) = is_exact_fields fs

  pub is_exact_items : Items → Bool
  is_exact_items nil = true
  is_exact_items (cons x xs) = is_exact x && is_exact_items xs

  pub is_exact_fields : Fields → Bool
  is_exact_fields end = true
  is_exact_fields (field k v fs) = is_exact v && is_exact_fields fs

unfoldable pub elements : Items → List Json
elements nil = []
elements (cons x xs) = x ∷ elements xs

-- `isObject`
abbrev pub as_object : Json → Option Fields
as_object (obj fs) = some fs
as_object _ = none

-- `value.key`, where `none` is `undefined`.
unfoldable pub member : String → Fields → Option Json
member key end = none
member key (field k v fs) = if str_eq k key then some v else member key fs

-- `Object.keys(value)`
unfoldable pub keys : Fields → List String
keys end = []
keys (field k v fs) = k ∷ keys fs

same_keys : List String → List String → Bool
same_keys [] [] = true
same_keys (k ∷ ks) (j ∷ js) = str_eq k j && same_keys ks js
same_keys _ _ = false

unfoldable pub has_exact_keys : Fields → List String → Bool
unfolding keys sort same_keys
has_exact_keys fs expected = same_keys (sort (keys fs)) (sort expected)

abbrev pub is_some_json : Option Json → Bool
is_some_json none = false
is_some_json (some v) = true

unfoldable pub has_exact_optional_keys : Fields → (required optional : List String) → Bool
unfolding keys member
has_exact_optional_keys fs required optional =
    all (λ key. is_some_json (member key fs)) required
    && all (λ key. any (str_eq key) required || any (str_eq key) optional) (keys fs)

-- `typeof value === "string"`
abbrev pub as_text : Option Json → Option String
as_text (some (str s)) = some s
as_text _ = none

-- `isPattern`
unfoldable pub as_pattern : (String → Bool) → Option Json → Option String
as_pattern test (some (str s)) = if test s then some s else none
as_pattern test _ = none

-- `Number.isInteger(value)`
abbrev pub as_integer : Option Json → Option ℤ
as_integer (some (num (int z))) = some z
as_integer _ = none

abbrev pub is_safe : ℤ → Bool
is_safe z = is_safe_integer (int z)

-- `Number.isSafeInteger(value)`
unfoldable pub as_safe_integer : Option Json → Option ℤ
as_safe_integer (some (num (int z))) = if is_safe z then some z else none
as_safe_integer _ = none

abbrev pub is_version : ℤ → Bool
is_version z = is_safe z && leb_ℤ (pos 0) z

-- `isVersion`
unfoldable pub as_version : Option Json → Option ℤ
as_version (some (num (int z))) = if is_version z then some z else none
as_version _ = none

-- `value === true`
abbrev pub is_true : Option Json → Bool
is_true (some (bool true)) = true
is_true _ = false

-- A text, or a list of one value that is again such: `String` gives the same text for both.
pub data Listed (A : Type 0) : Type 0 where
  plain : A → Listed A
  listed : Listed A → Listed A

-- The value whose `String(value)` is a text that `read` knows. `String` of an object is no such
-- text, or an exception, and of a longer list it has a comma.
unfoldable pub as_listed : {A : Type 0} → (String → Option A) → Json → Option (Listed A)
as_listed read (str s) = elim (read s) [ none ↦ none | some a ↦ some (plain a) ]
as_listed read (arr (cons x nil)) = elim (as_listed read x) [
  | none ↦ none
  | some a ↦ some (listed a)
]
as_listed read _ = none

-- The value again.
unfoldable pub listed_json : {A : Type 0} → (A → String) → Listed A → Json
listed_json write (plain a) = str (write a)
listed_json write (listed a) = arr (cons (listed_json write a) nil)
