-- ===== src/HttpLogs/Serializer.antt =====
-- src/modules/observability/http-logs/infrastructure/serialization/http-log.serializer.ts.
use Prim.Native.Char.{code}
use Prim.Native.String
use hexagonal.Base.{
  ℕ, suc, String, Bool, not, ◌&&◌, leb, eqb, Option, none, some, List, [], ◌∷◌, any, includes,
  if◌then◌else◌, get_or,
}
use hexagonal.Json.{Json, Items, Fields}

-- A value of the runtime. An object has an identity, and the entries that `Object.entries` lists; a
-- value that contains itself is unrolled, with the same identity again. Errors are objects too.
mutual
  pub data Value : Type 0 where
    undefined : Value
    null : Value
    bool : Bool → Value
    num : ℕ → Value
    str : String → Value
    date : (iso : String) → Value
    bigint : (printed : String) → Value
    buffer : (utf8 : String) → Value
    symbol : (description : Option String) → Value
    function : Value
    arr : Values → Value
    obj : (id : ℕ) → Entries → Value

  pub data Values : Type 0 where
    nil : Values
    cons : Value → Values → Values

  pub data Entries : Type 0 where
    end : Entries
    entry : String → Value → Entries → Entries

-- The texts of the runtime, and `JSON.parse`.
pub record Runtime : Type 0 where
  pub length : String → ℕ
  pub slice : (from to : ℕ) → String → String
  pub trim : String → String
  pub to_lower_case : String → String
  pub starts_with : String → String → Bool
  pub ends_with : String → String → Bool
  pub parse : String → Option Value

abbrev pub max_string_length : ℕ
max_string_length = 4000

abbrev pub max_object_depth : ℕ
max_object_depth = 6

abbrev pub redacted_value : String
redacted_value = "[REDACTED]"

abbrev pub sensitive_keys : List String
sensitive_keys =
    "apikey" ∷ "authorization" ∷ "clientsecret" ∷ "cookie" ∷ "cookies" ∷ "password"
    ∷ "passwordconfirmation" ∷ "passwordhash" ∷ "refreshtoken" ∷ "secret" ∷ "set-cookie" ∷ "token"
    ∷ "accesstoken" ∷ "invitationtoken" ∷ "privatekey" ∷ "resettoken" ∷ "verificationtoken" ∷ []

-- `replaceAll(/[^a-z]/g, '')`
abbrev pub only_letters : String → String
only_letters String.[] = String.[]
only_letters (String.◌∷◌ c s) =
    let rest = only_letters s in
    if leb b'a' (code c) && leb (code c) b'z' then String.◌∷◌ c rest else rest

module _ (runtime : Runtime) where
  unfoldable pub truncate_string : String → String
  truncate_string value =
      if leb (runtime.length value) max_string_length
      then value
      else String.◌++◌ (runtime.slice 0 max_string_length value) "...[TRUNCATED]"

  unfoldable pub should_redact : String → Bool
  should_redact key = includes (only_letters (runtime.to_lower_case key)) sensitive_keys

  unfoldable pub try_parse_json_string : String → Value
  try_parse_json_string value =
      let trimmed = runtime.trim value in
      if not (runtime.starts_with "{" trimmed && runtime.ends_with "}" trimmed)
        && not (runtime.starts_with "[" trimmed && runtime.ends_with "]" trimmed)
      then str value
      else get_or (runtime.parse trimmed) (str value)

  abbrev pub is_seen : ℕ → List ℕ → Bool
  is_seen id = any (λ i. eqb i id)

  -- `seen` holds the identities of the objects around the value.
  unfoldable mutual
    pub sanitize_unknown : Value → (depth : ℕ) (seen : List ℕ) → Json
    sanitize_unknown undefined depth seen = Json.null
    sanitize_unknown null depth seen = Json.null
    sanitize_unknown (bool b) depth seen = Json.bool b
    sanitize_unknown (num n) depth seen = Json.num n
    sanitize_unknown (str s) depth seen = Json.str (truncate_string s)
    sanitize_unknown (date iso) depth seen =
        if leb max_object_depth depth then Json.str "[MAX_DEPTH_REACHED]" else Json.str iso
    sanitize_unknown (bigint printed) depth seen =
        if leb max_object_depth depth then Json.str "[MAX_DEPTH_REACHED]" else Json.str printed
    sanitize_unknown (buffer utf8) depth seen =
        if leb max_object_depth depth
        then Json.str "[MAX_DEPTH_REACHED]"
        else Json.str (truncate_string utf8)
    sanitize_unknown (symbol description) depth seen =
        if leb max_object_depth depth
        then Json.str "[MAX_DEPTH_REACHED]"
        else Json.str (truncate_string (get_or description "[SYMBOL]"))
    sanitize_unknown function depth seen =
        if leb max_object_depth depth then Json.str "[MAX_DEPTH_REACHED]" else Json.str "[FUNCTION]"
    sanitize_unknown (arr values) depth seen =
        let items = sanitize_values values (suc depth) seen in
        if leb max_object_depth depth then Json.str "[MAX_DEPTH_REACHED]" else Json.arr items
    sanitize_unknown (obj id entries) depth seen =
        let fields = sanitize_entries entries (suc depth) (id ∷ seen) in
        if leb max_object_depth depth
        then Json.str "[MAX_DEPTH_REACHED]"
        else if is_seen id seen
        then Json.str "[CIRCULAR_REFERENCE]"
        else Json.obj fields

    pub sanitize_values : Values → (depth : ℕ) (seen : List ℕ) → Items
    sanitize_values nil depth seen = Items.nil
    sanitize_values (cons value values) depth seen =
        Items.cons (sanitize_unknown value depth seen) (sanitize_values values depth seen)

    pub sanitize_entries : Entries → (depth : ℕ) (seen : List ℕ) → Fields
    sanitize_entries end depth seen = Fields.end
    sanitize_entries (entry key nested entries) depth seen =
        let sanitized = sanitize_unknown nested depth seen in
        Fields.field key (if should_redact key then Json.str redacted_value else sanitized)
          (sanitize_entries entries depth seen)

  unfoldable pub sanitize_http_log_payload : Value → Json
  sanitize_http_log_payload (str value) = sanitize_unknown (try_parse_json_string value) 0 []
  sanitize_http_log_payload value = sanitize_unknown value 0 []

  -- `none` is `undefined`, and `null`.
  unfoldable pub sanitize_http_log_error_stack : Option String → Option String
  unfolding truncate_string
  sanitize_http_log_error_stack none = none
  sanitize_http_log_error_stack (some stack) =
      if eqb (runtime.length stack) 0 then none else some (truncate_string stack)
