-- ===== src/Json.antt =====
-- Values of type `unknown` that stem from JSON text, and the tests that the code makes on them.
-- A number is carried as a natural number: the code reads its type, and compares one with 1.
use hexagonal.Base.{ℕ, String, Bool, true, false, Option, none, some, ◌==◌, if◌then◌else◌}

mutual
  pub data Json : Type 0 where
    null : Json
    bool : Bool → Json
    num : ℕ → Json
    str : String → Json
    arr : Items → Json
    obj : Fields → Json

  pub data Items : Type 0 where
    nil : Items
    cons : Json → Items → Items

  pub data Fields : Type 0 where
    end : Fields
    field : String → Json → Fields → Fields

abbrev pub get_field : String → Fields → Option Json
get_field k end = none
get_field k (field j v fs) = if j == k then some v else get_field k fs

-- `value[key]`, where `none` is `undefined`; only objects have named properties.
abbrev pub get : String → Json → Option Json
get k (obj fs) = get_field k fs
get k _ = none

-- `typeof value === 'string'`, and the other types.
abbrev pub is_string : Option Json → Bool
is_string (some (str s)) = true
is_string _ = false

abbrev pub is_number : Option Json → Bool
is_number (some (num n)) = true
is_number _ = false

-- `value && typeof value === 'object'`; `null` is falsy, an array is an object.
abbrev pub is_object : Option Json → Bool
is_object (some (arr xs)) = true
is_object (some (obj fs)) = true
is_object _ = false

-- `JSON.stringify` and `JSON.parse` of the runtime; `none` is a syntax error.
pub record JsonCodec : Type 0 where
  pub stringify : Json → String
  pub parse : String → Option Json
