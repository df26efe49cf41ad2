-- ===== src/HttpLogs/Overwritten.antt =====
-- What the stored payload of src/modules/observability/http-logs does not depend on.
use hexagonal.Base.{ℕ, suc, ◌≡◌, refl, List, ◌∷◌, [], arith, if◌then◌else◌}
use hexagonal.HttpLogs.Secret.{is_secret, redacts_secret}
use hexagonal.HttpLogs.Serializer.{
  Value, Values, Entries, Runtime, sanitize_unknown, sanitize_values, sanitize_entries,
  sanitize_http_log_payload,
}

module _ (runtime : Runtime) where
  -- The value with another one put under each of its keys of a secret word.
  unfoldable mutual
    pub overwrite : (secret : Value) → Value → Value
    overwrite secret (Value.arr values) = Value.arr (overwrite_values secret values)
    overwrite secret (Value.obj id entries) = Value.obj id (overwrite_entries secret entries)
    overwrite secret value = value

    pub overwrite_values : (secret : Value) → Values → Values
    overwrite_values secret Values.nil = Values.nil
    overwrite_values secret (Values.cons value values) =
        Values.cons (overwrite secret value) (overwrite_values secret values)

    pub overwrite_entries : (secret : Value) → Entries → Entries
    overwrite_entries secret Entries.end = Entries.end
    overwrite_entries secret (Entries.entry key nested entries) =
        let kept = overwrite secret nested in
        Entries.entry key (if is_secret runtime key then secret else kept)
          (overwrite_entries secret entries)

  mutual
    unfolding sanitize_unknown overwrite

    sanitize-overwrite :
        (secret value : Value) (depth : ℕ) (seen : List ℕ)
        → sanitize_unknown runtime (overwrite secret value) depth seen
          ≡ sanitize_unknown runtime value depth seen
    sanitize-overwrite secret (Value.arr values) depth seen =
        ground (arith, sanitize_values-overwrite secret values (suc depth) seen)
    sanitize-overwrite secret (Value.obj id entries) depth seen =
        ground (arith, sanitize_entries-overwrite secret entries (suc depth) (id ∷ seen))
    sanitize-overwrite secret Value.undefined depth seen = refl
    sanitize-overwrite secret other depth seen = refl

    sanitize_values-overwrite :
        (secret : Value) (values : Values) (depth : ℕ) (seen : List ℕ)
        → sanitize_values runtime (overwrite_values secret values) depth seen
          ≡ sanitize_values runtime values depth seen
    sanitize_values-overwrite secret Values.nil depth seen = refl
    sanitize_values-overwrite secret (Values.cons value values) depth seen = cc (
      sanitize-overwrite secret value depth seen,
      sanitize_values-overwrite secret values depth seen,
    )

    sanitize_entries-overwrite :
        (secret : Value) (entries : Entries) (depth : ℕ) (seen : List ℕ)
        → sanitize_entries runtime (overwrite_entries secret entries) depth seen
          ≡ sanitize_entries runtime entries depth seen
    sanitize_entries-overwrite secret Entries.end depth seen = refl
    sanitize_entries-overwrite secret (Entries.entry key nested entries) depth seen = ground (
      arith,
      redacts_secret runtime key,
      sanitize-overwrite secret nested depth seen,
      sanitize_entries-overwrite secret entries depth seen,
    )

  -- What a payload that is an object or an array holds under its keys whose letters, in lower case, are
  -- one of the sixteen words of `secret_words` has no influence on what is stored. Of `set-cookie`
  -- nothing is said.
  pub sanitize_http_log_payload-overwrite :
      (secret value : Value)
      → sanitize_http_log_payload runtime (overwrite secret value)
        ≡ sanitize_http_log_payload runtime value
  unfolding sanitize_http_log_payload overwrite
  sanitize_http_log_payload-overwrite secret (Value.arr values) =
      sanitize-overwrite secret (Value.arr values) 0 []
  sanitize_http_log_payload-overwrite secret (Value.obj id entries) =
      sanitize-overwrite secret (Value.obj id entries) 0 []
  sanitize_http_log_payload-overwrite secret value = refl
