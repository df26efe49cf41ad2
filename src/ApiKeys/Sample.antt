-- ===== src/ApiKeys/Sample.antt =====
-- A key, its owner and the ports for the tests of src/modules/iam/api-keys and of the guards.
use hexagonal.Base.{refl, ◌==◌, none, some, [], ◌∷◌, arith, eq_iff, if◌then◌else◌}
use hexagonal.Table.Upsert.{upserting}
use hexagonal.Users.Entity.{User}
use hexagonal.Members.Repository.{Member}
use hexagonal.ApiKeys.Token.{Texts, Splits, test, api_key_token}
use hexagonal.ApiKeys.Entity.{ApiKey}
use hexagonal.ApiKeys.UseCases.{key_id, Ports}

abbrev pub texts : Texts
texts = record {
  split = λ separator text. if text == "hex_test_k.s" then "hex_test_k" ∷ "s" ∷ [] else [];
  last_index_of = λ part text. some 8;
  slice_from = λ start text. if text == "hex_test_k" then "k" else "";
}

abbrev pub ports : Ports
ports = record {
  texts = texts;
  user_texts = record { trim = λ s. s; to_lower_case = λ s. s };
  hash = λ secret. secret;
  id_prefix = λ id. id;
  environment = test;
  usage_write_interval_ms = 1000;
  default_ttl_days = 1;
  key_saves = upserting key_id;
}

abbrev pub ann : User
ann = record {
  id = "u";
  email = "a@b.c";
  password_hash = "h";
  first_name = "Ann";
  last_name = "Lee";
  email_verified_at = none;
  deleted_at = none;
  created_at = 1;
  updated_at = 1;
}

abbrev pub membership : Member
membership = record {
  id = "m";
  user_id = "u";
  organization_id = "o";
  role = record { id = "r"; name = "owner"; permissions = "read" ∷ "write" ∷ [] };
  joined_at = 1;
}

abbrev pub key : ApiKey
key = record {
  id = "k";
  organization_id = "o";
  owner_user_id = "u";
  name = "ci";
  key_prefix = "hex_test_k";
  secret_hash = "s";
  scopes = "read" ∷ [];
  expires_at = some 900;
  last_used_at = none;
  last_used_ip = none;
  revoked_at = none;
  created_at = 5;
  updated_at = 5;
}

pub splits : Splits texts test "k" "s"
unfolding api_key_token
splits = record {
  split = refl;
  separator = 8;
  last_index_of = refl;
  slice_from = refl;
  full_id = ground (arith, eq_iff "k" "");
  full_prefix = ground (arith, eq_iff "hex_test_k" "");
  full_secret = ground (arith, eq_iff "s" "");
}
