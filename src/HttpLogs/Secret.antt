-- ===== src/HttpLogs/Secret.antt =====
-- The keys whose values src/modules/observability/http-logs keeps from the logs.
use hexagonal.Base.{
  ◌≡◌, refl, sym, ◌==◌, eq_iff, String, Bool, true, false, not, any, includes, List, ◌∷◌, [], arith,
  Bool-cases, inl, inr,
}
use hexagonal.HttpLogs.Serializer.{Runtime, sensitive_keys, only_letters, should_redact}

-- The words that are kept from the logs. `set-cookie` is in the source's list too, but no key is
-- reduced to it, as its dash is no letter.
abbrev pub secret_words : List String
secret_words =
    "apikey" ∷ "authorization" ∷ "clientsecret" ∷ "cookie" ∷ "cookies" ∷ "password"
    ∷ "passwordconfirmation" ∷ "passwordhash" ∷ "refreshtoken" ∷ "secret" ∷ "token" ∷ "accesstoken"
    ∷ "invitationtoken" ∷ "privatekey" ∷ "resettoken" ∷ "verificationtoken" ∷ []

includes_of_part :
    (s : String) (xs ys : List String)
    → any (λ x. not (includes x ys)) xs ≡ false
    → includes s xs ≡ true
    → includes s ys ≡ true
includes_of_part s [] ys part h = absurd (cc)
includes_of_part s (x ∷ xs) ys part h = elim (Bool-cases (includes x ys)) [
  | inr missing ↦ absurd (ground arith)
  | inl there ↦ elim (Bool-cases (x == s)) [
    | inl same ↦ rw (sym ((eq_iff x s).0 same)) there
    | inr other ↦ includes_of_part s xs ys (ground arith) (ground arith)
  ]
]

module _ (runtime : Runtime) where
  -- The letters of the key, in lower case, are one of the words.
  unfoldable pub is_secret : String → Bool
  is_secret key = includes (only_letters (runtime.to_lower_case key)) secret_words

  pub redacts_secret : (key : String) → is_secret key ≡ true → should_redact runtime key ≡ true
  unfolding is_secret should_redact
  redacts_secret key h =
      includes_of_part (only_letters (runtime.to_lower_case key)) secret_words sensitive_keys refl h
