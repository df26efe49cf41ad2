-- ===== src/ApiKeys/Entity.antt =====
-- src/modules/iam/api-keys/domain/entities/api-key.entity.ts. The clock is an argument, and `trim` of
-- the runtime a parameter.
use hexagonal.Base.{
  ℕ, ◌-◌, String, Bool, true, false, not, ◌&&◌, ◌==◌, leb, eqb, Option, none, some, is_some, List,
  if◌then◌else◌,
}

pub record ApiKey : Type 0 where
  pub id : String
  pub organization_id : String
  pub owner_user_id : String
  pub name : String
  pub key_prefix : String
  pub secret_hash : String
  pub scopes : List String
  pub expires_at : Option ℕ
  pub last_used_at : Option ℕ
  pub last_used_ip : Option String
  pub revoked_at : Option ℕ
  pub created_at : ℕ
  pub updated_at : ℕ

abbrev pub is_revoked : ApiKey → Bool
is_revoked key = is_some key.revoked_at

abbrev pub is_past : Option ℕ → (now : ℕ) → Bool
is_past none now = false
is_past (some time) now = leb time now

abbrev pub is_expired : (now : ℕ) → ApiKey → Bool
is_expired now key = is_past key.expires_at now

unfoldable pub is_active : (now : ℕ) → ApiKey → Bool
is_active now key = not (is_revoked key) && not (is_expired now key)

unfoldable pub revoke : (now : ℕ) → ApiKey → ApiKey
revoke now key =
    if is_revoked key then key else record key { revoked_at = some now; updated_at = now }

abbrev pub is_due : Option ℕ → (now minimum_interval_ms : ℕ) → Bool
is_due none now minimum_interval_ms = true
is_due (some last) now minimum_interval_ms =
    if eqb minimum_interval_ms 0 then true else leb minimum_interval_ms (now - last)

-- The interval is a natural number, so that `<= 0` is `= 0`; a time of use that lies ahead gives a
-- negative difference in the code and 0 here, less than the interval either way.
unfoldable pub should_record_usage : (now minimum_interval_ms : ℕ) → ApiKey → Bool
should_record_usage now minimum_interval_ms key = is_due key.last_used_at now minimum_interval_ms

module _ (trim : String → String) where
  -- `lastUsedIp?.trim() || null`
  abbrev pub trimmed_or_none : Option String → Option String
  trimmed_or_none none = none
  trimmed_or_none (some s) = if trim s == "" then none else some (trim s)

  unfoldable pub record_usage : (now : ℕ) (last_used_ip : Option String) → ApiKey → ApiKey
  record_usage now last_used_ip key = record key {
    last_used_at = some now;
    last_used_ip = trimmed_or_none last_used_ip;
    updated_at = now;
  }

  unfoldable pub create :
      (now : ℕ) (id organization_id owner_user_id name key_prefix secret_hash : String)
      → (scopes : List String) → (expires_at : Option ℕ) → ApiKey
  create now id organization_id owner_user_id name key_prefix secret_hash scopes expires_at =
      record {
        id = id;
        organization_id = organization_id;
        owner_user_id = owner_user_id;
        name = trim name;
        key_prefix = key_prefix;
        secret_hash = secret_hash;
        scopes = scopes;
        expires_at = expires_at;
        last_used_at = none;
        last_used_ip = none;
        revoked_at = none;
        created_at = now;
        updated_at = now;
      }

  unfoldable pub rehydrate : ApiKey → ApiKey
  rehydrate key = record key { name = trim key.name }
