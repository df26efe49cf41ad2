-- ===== src/Sessions/Token.antt =====
-- src/shared/domain/security/opaque-token.ts. `split` is the runtime's split of a text at its dots;
-- the random UUIDs are arguments.
use Prim.Native.String
use hexagonal.Base.{
  ◌≡◌, ◌≢◌, String, ◌==◌, ◌||◌, Option, none, some, List, [], ◌∷◌, arith, eq_iff, if◌then◌else◌,
}

pub record OpaqueTokenParts : Type 0 where
  pub id : String
  pub secret : String

-- `${id}.${secret}`
unfoldable pub token_of : (id secret : String) → String
token_of id secret = String.◌++◌ id (String.◌++◌ "." secret)

-- The first two parts; the further ones are passed over.
unfoldable pub parse_opaque_token :
    (split : String → List String) → String → Option OpaqueTokenParts
parse_opaque_token split token = elim (split token) [
  | id ∷ secret ∷ _ ↦
      if (id == "") || (secret == "") then none else some (record { id = id; secret = secret })
  | _ ↦ none
]

-- What is read back from a token is what it was made of, if the runtime splits it in two.
pub parse_opaque_token-token_of :
    (split : String → List String) (id secret : String)
    → split (token_of id secret) ≡ id ∷ secret ∷ []
    → id ≢ ""
    → secret ≢ ""
    → parse_opaque_token split (token_of id secret) ≡ some (record { id = id; secret = secret })
unfolding parse_opaque_token
parse_opaque_token-token_of split id secret e full_id full_secret =
    ground (arith, eq_iff id "", eq_iff secret "")
