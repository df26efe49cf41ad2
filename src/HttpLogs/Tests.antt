-- ===== src/HttpLogs/Tests.antt =====
-- The serializer at concrete values.
use Prim.Native.String
use hexagonal.Base.{◌≤◌, ◌≡◌, refl, false, none}
use hexagonal.Json.{Json, Fields}
use hexagonal.HttpLogs.Serializer.{
  Value, Entries, Runtime, max_object_depth, should_redact, truncate_string, sanitize_unknown,
  sanitize_http_log_payload,
}
use hexagonal.HttpLogs.Redaction.{nesting, IsRedacted, payload_is_safe}
use hexagonal.HttpLogs.Overwritten.{overwrite, sanitize_http_log_payload-overwrite}

-- Texts of ASCII in lower case, of which none is JSON.
abbrev runtime : Runtime
runtime = record {
  length = String.len;
  slice = λ from to s. String.slice s from to;
  trim = λ s. s;
  to_lower_case = λ s. s;
  starts_with = λ p s. false;
  ends_with = λ p s. false;
  parse = λ s. none;
}

abbrev login : Value
login = Value.obj 1 (
    Entries.entry "email" (Value.str "a@b.c") (
      Entries.entry "password" (Value.str "hidden")
        (Entries.entry "set-cookie" (Value.str "session") Entries.end)))

stored_login :
    sanitize_http_log_payload runtime login
    ≡ Json.obj (
        Fields.field "email" (Json.str "a@b.c") (
          Fields.field "password"
            (Json.str "[REDACTED]")
            (Fields.field "set-cookie" (Json.str "session") Fields.end)))
unfolding sanitize_http_log_payload sanitize_unknown should_redact truncate_string
stored_login = refl

payload_is_safe_example :
    IsRedacted runtime (sanitize_http_log_payload runtime login)
    × (nesting (sanitize_http_log_payload runtime login) ≤ max_object_depth)
payload_is_safe_example = payload_is_safe runtime login

sanitize_http_log_payload-overwrite_example :
    sanitize_http_log_payload runtime (overwrite runtime (Value.num 7) login)
    ≡ sanitize_http_log_payload runtime login
sanitize_http_log_payload-overwrite_example =
    sanitize_http_log_payload-overwrite runtime (Value.num 7) login
