-- ===== src/ApiKeys/Token.antt =====
-- src/modules/iam/api-keys/domain/security/api-key-token.ts. Random texts are arguments, and what the
-- runtime does with texts is a parameter.
use Prim.Native.String
use hexagonal.Base.{
  ℕ, suc, ◌≡◌, ◌≢◌, String, ◌||◌, ◌==◌, Option, none, some, List, [], ◌∷◌, arith, eq_iff,
  if◌then◌else◌,
}

-- `split` at a separator, `lastIndexOf`, where `none` is -1, and the `slice` from an index on.
pub record Texts : Type 0 where
  pub split : (separator text : String) → List String
  pub last_index_of : (part text : String) → Option ℕ
  pub slice_from : ℕ → String → String

pub data RuntimeEnvironment : Type 0 where
  development : RuntimeEnvironment
  test : RuntimeEnvironment
  production : RuntimeEnvironment

abbrev pub prefix_by_environment : RuntimeEnvironment → String
prefix_by_environment development = "hex_test"
prefix_by_environment test = "hex_test"
prefix_by_environment production = "hex_live"

pub record ApiKeyTokenParts : Type 0 where
  pub id : String
  pub secret : String

-- `${prefix}_${id}`
abbrev pub prefixed_id : RuntimeEnvironment → (id : String) → String
prefixed_id environment id = String.◌++◌ (prefix_by_environment environment) (String.◌++◌ "_" id)

unfoldable pub api_key_token : RuntimeEnvironment → (id secret : String) → String
api_key_token environment id secret =
    String.◌++◌ (prefixed_id environment id) (String.◌++◌ "." secret)

module _ (texts : Texts) where
  -- The parts after the second are passed over.
  unfoldable pub parse_api_key_token : String → Option ApiKeyTokenParts
  parse_api_key_token token = elim (texts.split "." token) [
    | prefixed ∷ secret ∷ _ ↦
        if (prefixed == "") || (secret == "")
        then none
        else elim (texts.last_index_of "_" prefixed) [
          | none ↦ none
          | some separator ↦
              let id = texts.slice_from (suc separator) prefixed in
              if (id == "") || (secret == "")
              then none
              else some (record { id = id; secret = secret })
        ]
    | _ ↦ none
  ]

  -- What the runtime does with a token whose id has no underscore, and whose id and secret no dot.
  pub record Splits (environment : RuntimeEnvironment) (id secret : String) : Type 0 where
    pub split :
        texts.split "." (api_key_token environment id secret)
        ≡ prefixed_id environment id ∷ secret ∷ []
    pub separator : ℕ
    pub last_index_of : texts.last_index_of "_" (prefixed_id environment id) ≡ some separator
    pub slice_from : texts.slice_from (suc separator) (prefixed_id environment id) ≡ id
    pub full_id : id ≢ ""
    pub full_prefix : prefixed_id environment id ≢ ""
    pub full_secret : secret ≢ ""

  pub parse_api_key_token-api_key_token :
      (environment : RuntimeEnvironment) (id secret : String)
      → Splits environment id secret
      → parse_api_key_token (api_key_token environment id secret)
        ≡ some (record { id = id; secret = secret })
  unfolding parse_api_key_token
  parse_api_key_token-api_key_token environment id secret s =
      let split = s.split in
      let index = s.last_index_of in
      let slice = s.slice_from in
      let full_id = s.full_id in
      let full_prefix = s.full_prefix in
      let full_secret = s.full_secret in
      ground (arith, eq_iff id "", eq_iff secret "", eq_iff (prefixed_id environment id) "")
