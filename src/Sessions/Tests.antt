-- ===== src/Sessions/Tests.antt =====
-- The theorems on the sessions at concrete tables.
use hexagonal.Base.{
  ◌≡◌, ◌≢◌, refl, String, ◌==◌, some, List, [], ◌∷◌, arith, eq_iff, eq_refl, ok, err, if◌then◌else◌,
}
use hexagonal.Table.Upsert.{upserting}
use hexagonal.Table.{find_by}
use hexagonal.Sessions.Token.{OpaqueTokenParts, token_of, parse_opaque_token}
use hexagonal.Sessions.Entity.{AuthSession, create, is_active, rotate}
use hexagonal.Sessions.Repository.{session_id, find_by_id, update, create_row}
use hexagonal.Sessions.UseCases.{
  User, Ports, session_not_found, SessionResponse, session_of_token, rotated, refresh, logout,
  logout_all, login, AuditRecord,
}
use hexagonal.Sessions.Steps.{renew, log_out_all, steps}
use hexagonal.Sessions.Refused.{refreshed_token_refused}
use hexagonal.Sessions.Accepted.{login_token_taken, refresh_token_taken}
use hexagonal.Sessions.Ended.{logged_out_stays_out, logged_out_everywhere}

abbrev split : String → List String
split token =
    if token == "s.a" then "s" ∷ "a" ∷ [] else if token == "s.b" then "s" ∷ "b" ∷ [] else []

abbrev ann : User
ann = record { id = "u"; email = "a@b.c"; password_hash = "pw" }

abbrev ports : Ports
ports = record {
  split = split;
  compare = λ secret hash. secret == hash;
  hash = λ salt secret. secret;
  generate_token = λ user_id email. "jwt";
  find_user_by_id = λ id. some ann;
  find_user_by_email = λ email. some ann;
  refresh_session_ttl_ms = 1000;
  session_saves = upserting session_id;
}

abbrev rows : List AuthSession
rows = create 5 "s" "u" "a" 1005 ∷ []

abbrev first : OpaqueTokenParts
first = record { id = "s"; secret = "a" }

abbrev response : String → SessionResponse
response refresh_token = record {
  access_token = "jwt";
  refresh_token = refresh_token;
  user_id = "u";
  email = "a@b.c";
}

b_not_a : ◌≢◌ {A = String} "b" "a"
b_not_a e = ground (arith, eq_iff "b" "a")

c_not_a : ◌≢◌ {A = String} "c" "a"
c_not_a e = ground (arith, eq_iff "c" "a")

refreshed_token_refused_example :
    session_of_token ports 30 "s.a" (
      steps ports
        (renew 20 "salt" "c" "s.b" ∷ log_out_all 21 "v" ∷ [])
        (refresh ports (λ r. r) 10 "salt" "b" "s.a" rows).1)
    ≡ err session_not_found
unfolding parse_opaque_token refresh session_of_token find_by_id create is_active token_of
refreshed_token_refused_example =
    refreshed_token_refused ports (λ salt secret other e. (eq_iff other secret).0 e) 10 "salt" "b"
      "s.a" rows first refl b_not_a (response "s.b") refl
      (renew 20 "salt" "c" "s.b" ∷ log_out_all 21 "v" ∷ []) (c_not_a, (tt, tt)) 30

login_token_taken_example :
    (session : AuthSession) × (find_by session_id "s"
        (login ports 7 "s" "a" "salt" "a@b.c" "pw" []).1
      ≡ some session)
    × (session_of_token ports 100 "s.a" (create 7 "s" "u" "a" 1007 ∷ []) ≡ ok session)
    × (session.user_id ≡ "u")
unfolding login token_of create_row create
login_token_taken_example =
    login_token_taken ports (λ salt secret. eq_refl secret) 7 "s" "a" "salt" "a@b.c" "pw" []
      (refl, λ e. cc, λ e. cc) (response "s.a") refl 100 (omega arith)
      (create 7 "s" "u" "a" 1007 ∷ []) refl

-- After the refresh, and beside another session.
abbrev renewed : List AuthSession
renewed = create 8 "t" "u" "z" 1008 ∷ record (create 5 "s" "u" "b" 1010) { updated_at = 10 } ∷ []

refresh_token_taken_example :
    (session : AuthSession) × (session_of_token ports 100 "s.b" renewed ≡ ok session)
    × (session.expires_at ≡ 1010)
unfolding parse_opaque_token refresh session_of_token find_by_id create is_active token_of update
    rotated rotate
refresh_token_taken_example =
    refresh_token_taken ports (λ salt secret. eq_refl secret) 10 "salt" "b" "s.a" rows
      (response "s.b") refl first refl (refl, λ e. cc, λ e. cc) 100 (omega arith) renewed refl

abbrev audit : AuditRecord
audit = record {
  action = "iam.auth.session.revoked";
  actor_user_id = "u";
  resource_type = "auth_session";
  resource_id = some "s";
}

logged_out_stays_out_example :
    session_of_token ports 30 "s.b"
      (steps ports (renew 20 "salt" "b" "s.a" ∷ []) (logout ports 10 "s.a" rows).1)
    ≡ err session_not_found
unfolding parse_opaque_token logout session_of_token find_by_id create is_active
logged_out_stays_out_example =
    logged_out_stays_out ports 10 "s.a" rows first refl audit refl (renew 20 "salt" "b" "s.a" ∷ [])
      (tt, tt) 30 "s.b" (record { id = "s"; secret = "b" }) refl refl

logged_out_everywhere_example :
    session_of_token ports 30 "s.a"
      (steps ports (renew 20 "salt" "b" "s.a" ∷ []) (logout_all ports 10 "u" rows).1)
    ≡ err session_not_found
unfolding parse_opaque_token find_by_id create
logged_out_everywhere_example =
    logged_out_everywhere ports 10 "u" "s" rows (create 5 "s" "u" "a" 1005) refl refl
      (renew 20 "salt" "b" "s.a" ∷ []) (tt, tt) 30 "s.a" first refl refl
