-- ===== src/HttpLogs/Redaction.antt =====
-- What the sanitized payload of src/modules/observability/http-logs can hold.
use Prim.Native.Nat.{max}
use hexagonal.Base.{
  ℕ, suc, ◌≤◌, ◌≡◌, refl, sym, ◌∙◌, ◌-◌, Bool, true, false, List, ◌∷◌, [], arith, leb, Bool-cases,
  if◌then◌else◌, inl, inr,
}
use mathlib.Core.Bool.{false≢true}
use hexagonal.Json.{Json, Items, Fields}
use hexagonal.HttpLogs.Secret.{is_secret, redacts_secret}
use hexagonal.HttpLogs.Serializer.{
  Value, Values, Entries, Runtime, max_object_depth, redacted_value, should_redact, is_seen,
  sanitize_unknown, sanitize_values, sanitize_entries, try_parse_json_string,
  sanitize_http_log_payload,
}

-- How many arrays and objects stand around one another.
unfoldable mutual
  pub nesting : Json → ℕ
  nesting (Json.arr items) = suc (nesting_items items)
  nesting (Json.obj fields) = suc (nesting_fields fields)
  nesting _ = 0

  pub nesting_items : Items → ℕ
  nesting_items Items.nil = 0
  nesting_items (Items.cons x xs) = max (nesting x) (nesting_items xs)

  pub nesting_fields : Fields → ℕ
  nesting_fields Fields.end = 0
  nesting_fields (Fields.field k v fs) = max (nesting v) (nesting_fields fs)

module _ (runtime : Runtime) where
  -- Whatever stands under a key of a secret word, at any depth, is the text that says so.
  unfoldable mutual
    pub IsRedacted : Json → Type 0
    IsRedacted (Json.arr items) = AreRedacted items
    IsRedacted (Json.obj fields) = FieldsAreRedacted fields
    IsRedacted _ = Unit

    pub AreRedacted : Items → Type 0
    AreRedacted Items.nil = Unit
    AreRedacted (Items.cons x xs) = IsRedacted x × AreRedacted xs

    pub FieldsAreRedacted : Fields → Type 0
    FieldsAreRedacted Fields.end = Unit
    FieldsAreRedacted (Fields.field k v fs) =
        (is_secret runtime k ≡ true → v ≡ Json.str redacted_value)
        × IsRedacted v
        × FieldsAreRedacted fs

  mutual
    unfolding sanitize_unknown IsRedacted

    sanitize-IsRedacted :
        (value : Value) (depth : ℕ) (seen : List ℕ)
        → IsRedacted (sanitize_unknown runtime value depth seen)
    sanitize-IsRedacted Value.undefined depth seen = tt
    sanitize-IsRedacted Value.null depth seen = tt
    sanitize-IsRedacted (Value.bool b) depth seen = tt
    sanitize-IsRedacted (Value.num n) depth seen = tt
    sanitize-IsRedacted (Value.str s) depth seen = tt
    sanitize-IsRedacted (Value.arr values) depth seen =
        elim (Bool-cases (leb max_object_depth depth)) [
          | inl deep ↦ rw deep tt
          | inr shallow ↦ rw shallow (sanitize_values-AreRedacted values (suc depth) seen)
        ]
    sanitize-IsRedacted (Value.obj id entries) depth seen =
        elim (Bool-cases (leb max_object_depth depth)) [
          | inl deep ↦ rw deep tt
          | inr shallow ↦ elim (Bool-cases (is_seen runtime id seen)) [
            | inl circular ↦ rw (shallow, circular) tt
            | inr fresh ↦
                rw (shallow, fresh) (sanitize_entries-AreRedacted entries (suc depth) (id ∷ seen))
          ]
        ]
    sanitize-IsRedacted other depth seen = elim (Bool-cases (leb max_object_depth depth)) [
      | inl deep ↦ rw deep tt
      | inr shallow ↦ rw shallow tt
    ]

    sanitize_values-AreRedacted :
        (values : Values) (depth : ℕ) (seen : List ℕ)
        → AreRedacted (sanitize_values runtime values depth seen)
    sanitize_values-AreRedacted Values.nil depth seen = tt
    sanitize_values-AreRedacted (Values.cons value values) depth seen =
        (sanitize-IsRedacted value depth seen, sanitize_values-AreRedacted values depth seen)

    sanitize_entries-AreRedacted :
        (entries : Entries) (depth : ℕ) (seen : List ℕ)
        → FieldsAreRedacted (sanitize_entries runtime entries depth seen)
    sanitize_entries-AreRedacted Entries.end depth seen = tt
    sanitize_entries-AreRedacted (Entries.entry key nested entries) depth seen =
        let rest = sanitize_entries-AreRedacted entries depth seen in
        elim (Bool-cases (should_redact runtime key)) [
          | inl sensitive ↦ rw sensitive (λ e. refl, tt, rest)
          | inr open_key ↦ rw open_key (
            λ e. absurd (false≢true (sym open_key ∙ redacts_secret runtime key e)),
            sanitize-IsRedacted nested depth seen,
            rest,
          )
        ]

  max_lub : {a b n : ℕ} → a ≤ n → b ≤ n → max a b ≤ n
  max_lub h k = omega arith

  one_deeper :
      (depth n : ℕ)
      → leb max_object_depth depth ≡ false
      → n ≤ max_object_depth - suc depth
      → suc n ≤ max_object_depth - depth
  one_deeper depth n shallow h = ground arith

  either_le :
      (b : Bool) (v w : Json) (n : ℕ)
      → nesting v ≤ n
      → nesting w ≤ n
      → nesting (if b then v else w) ≤ n
  either_le true v w n h k = h
  either_le false v w n h k = k

  mutual
    unfolding sanitize_unknown nesting

    nesting-sanitize :
        (value : Value) (depth : ℕ) (seen : List ℕ)
        → nesting (sanitize_unknown runtime value depth seen) ≤ max_object_depth - depth
    nesting-sanitize Value.undefined depth seen = omega arith
    nesting-sanitize Value.null depth seen = omega arith
    nesting-sanitize (Value.bool b) depth seen = omega arith
    nesting-sanitize (Value.num n) depth seen = omega arith
    nesting-sanitize (Value.str s) depth seen = omega arith
    nesting-sanitize (Value.arr values) depth seen =
        elim (Bool-cases (leb max_object_depth depth)) [
          | inl deep ↦ rw deep (omega arith)
          | inr shallow ↦
              rw shallow (one_deeper depth _ shallow (nesting-sanitize_values values depth seen))
        ]
    nesting-sanitize (Value.obj id entries) depth seen =
        elim (Bool-cases (leb max_object_depth depth)) [
          | inl deep ↦ rw deep (omega arith)
          | inr shallow ↦ elim (Bool-cases (is_seen runtime id seen)) [
            | inl circular ↦ rw (shallow, circular) (omega arith)
            | inr fresh ↦
                rw (shallow, fresh)
                  (one_deeper depth _ shallow (nesting-sanitize_entries entries depth (id ∷ seen)))
          ]
        ]
    nesting-sanitize other depth seen =
        either_le (leb max_object_depth depth) _ _ _ (omega arith) (omega arith)

    nesting-sanitize_values :
        (values : Values) (depth : ℕ) (seen : List ℕ)
        → nesting_items (sanitize_values runtime values (suc depth) seen)
          ≤ max_object_depth - suc depth
    nesting-sanitize_values Values.nil depth seen = omega arith
    nesting-sanitize_values (Values.cons value values) depth seen =
        omega (
          arith,
          nesting-sanitize value (suc depth) seen,
          nesting-sanitize_values values depth seen,
        )

    nesting-sanitize_entries :
        (entries : Entries) (depth : ℕ) (seen : List ℕ)
        → nesting_fields (sanitize_entries runtime entries (suc depth) seen)
          ≤ max_object_depth - suc depth
    nesting-sanitize_entries Entries.end depth seen = omega arith
    nesting-sanitize_entries (Entries.entry key nested entries) depth seen =
        max_lub
          (either_le (should_redact runtime key) _ _ _ (omega arith)
            (nesting-sanitize nested (suc depth) seen))
          (nesting-sanitize_entries entries depth seen)

  -- Of any payload: what stands under a key whose letters, in lower case, are one of the sixteen words
  -- of `secret_words` is the text that says so, at any depth, and arrays and objects are nested six deep
  -- at most. Of `set-cookie` nothing is said.
  pub payload_is_safe :
      (value : Value)
      → IsRedacted (sanitize_http_log_payload runtime value)
        × (nesting (sanitize_http_log_payload runtime value) ≤ max_object_depth)
  unfolding sanitize_http_log_payload
  payload_is_safe (Value.str text) =
      let parsed = try_parse_json_string runtime text in
      (sanitize-IsRedacted parsed 0 [], nesting-sanitize parsed 0 [])
  payload_is_safe value = (sanitize-IsRedacted value 0 [], nesting-sanitize value 0 [])
