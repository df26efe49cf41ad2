-- ===== src/Webhooks/Target.antt =====
-- src/modules/webhooks/domain/webhook-target-policy.ts. The URL parser, `isIP` and what the runtime does
-- with a whole text are parameters.
use Prim.Native.Char.{code}
use hexagonal.Base.{
  ℕ, String, Bool, true, false, not, ◌&&◌, ◌||◌, ◌==◌, leb, eqb, Option, none, some, is_some, List,
  [], ◌∷◌, map, includes, Result, ok, err, if◌then◌else◌,
}

pub record WebhookTargetPolicyOptions : Type 0 where
  pub require_https : Bool
  pub allow_private_targets : Bool

-- What is read of a parsed URL; `href` is its text.
pub record Url : Type 0 where
  pub protocol : String
  pub hostname : String
  pub username : String
  pub password : String
  pub href : String

-- `parse` is `new URL`, with the message of the exception; `without_brackets` the replacement of brackets
-- around the whole text; `number` is `Number` of a part, if that is an integer, which is not negative
-- in an address; `is_ip` is 0, 4 or 6.
pub record Runtime : Type 0 where
  pub parse : String → Result String Url
  pub trim : String → String
  pub to_lower_case : String → String
  pub without_brackets : String → String
  pub split : (separator text : String) → List String
  pub number : String → Option ℕ
  pub is_ip : String → ℕ

-- What is left of a text that starts with the prefix.
unfoldable pub after_prefix : (prefix text : String) → Option String
after_prefix String.[] text = some text
after_prefix (String.◌∷◌ c prefix) String.[] = none
after_prefix (String.◌∷◌ c prefix) (String.◌∷◌ d text) =
    let rest = after_prefix prefix text in if eqb (code c) (code d) then rest else none

abbrev pub starts_with : (prefix text : String) → Bool
starts_with prefix text = is_some (after_prefix prefix text)

unfoldable pub ends_with : (suffix text : String) → Bool
ends_with suffix String.[] = suffix == ""
ends_with suffix (String.◌∷◌ c text) = (suffix == String.◌∷◌ c text) || ends_with suffix text

unfoldable pub is_local_hostname : String → Bool
is_local_hostname hostname =
    hostname == "localhost"
    || ends_with ".localhost" hostname
    || ends_with ".local" hostname
    || hostname == "host.docker.internal"
    || hostname == "gateway.docker.internal"
    || hostname == "kubernetes.docker.internal"

-- The tests on the first two octets.
unfoldable pub is_private_start : (first second : ℕ) → Bool
is_private_start first second =
    eqb first 0
    || eqb first 10
    || eqb first 127
    || (eqb first 100 && leb 64 second && leb second 127)
    || (eqb first 169 && eqb second 254)
    || (eqb first 172 && leb 16 second && leb second 31)
    || (eqb first 192 && eqb second 168)
    || (eqb first 198 && (eqb second 18 || eqb second 19))

abbrev pub is_private_octets : List (Option ℕ) → Bool
is_private_octets (some first ∷ some second ∷ some third ∷ some fourth ∷ []) =
    is_private_start first second
is_private_octets _ = false

module _ (runtime : Runtime) where
  unfoldable pub normalize_host : String → String
  normalize_host hostname = runtime.without_brackets (runtime.to_lower_case (runtime.trim hostname))

  unfoldable pub is_private_ipv4 : String → Bool
  is_private_ipv4 hostname = is_private_octets (map runtime.number (runtime.split "." hostname))

  unfoldable pub is_private_ipv6 : String → Bool
  is_private_ipv6 hostname =
      let normalized = runtime.to_lower_case hostname in
      if normalized == "::" || normalized == "::1"
      then true
      else elim (after_prefix "::ffff:" normalized) [
        | some mapped ↦ is_private_ipv4 mapped
        | none ↦
            starts_with "fc" normalized
            || starts_with "fd" normalized
            || starts_with "fe8" normalized
            || starts_with "fe9" normalized
            || starts_with "fea" normalized
            || starts_with "feb" normalized
      ]

  unfoldable pub is_private_ip_address : String → Bool
  is_private_ip_address hostname =
      let normalized = normalize_host hostname in
      let ip_version = runtime.is_ip normalized in
      if eqb ip_version 4
      then is_private_ipv4 normalized
      else if eqb ip_version 6
      then is_private_ipv6 normalized
      else false

  -- The URL, or the message of the exception.
  unfoldable pub assert_webhook_target_allowed :
      String → WebhookTargetPolicyOptions → Result String Url
  assert_webhook_target_allowed raw_url options = elim (runtime.parse raw_url) [
    | err message ↦ err message
    | ok parsed_url ↦
        let hostname = normalize_host parsed_url.hostname in
        if not (includes parsed_url.protocol ("http:" ∷ "https:" ∷ []))
        then err "only http and https URLs are supported"
        else if options.require_https && not (parsed_url.protocol == "https:")
        then err "https is required"
        else if not (parsed_url.username == "") || not (parsed_url.password == "")
        then err "embedded credentials are not allowed"
        else if not options.allow_private_targets
            && (is_local_hostname hostname || is_private_ip_address hostname)
        then err "private or local network targets are not allowed"
        else ok parsed_url
  ]
