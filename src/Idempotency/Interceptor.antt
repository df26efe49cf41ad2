-- ===== src/Idempotency/Interceptor.antt =====
-- src/common/http/interceptors/request-idempotency.interceptor.ts, and the keys of
-- src/common/http/idempotent-request.util.ts. The hash of the payload is a field of the request.
use Prim.Native.String
use hexagonal.Base.{
  ℕ, String, Bool, true, false, Option, none, some, List, ◌==◌, eqb, if◌then◌else◌, get_or, Result,
  ok, err,
}
use hexagonal.Json.{Json, null}
use hexagonal.Table.{Saves}
use hexagonal.Idempotency.Request.{IdempotentRequest}
use hexagonal.Idempotency.Repository.{request_id}
use hexagonal.Idempotency.Service.{
  BeginIdempotentRequestCommand, BeginIdempotentRequestResult, started, replay,
  IdempotencyException, begin, complete, release,
}

pub record AuthenticatedUser : Type 0 where
  pub user_id : Option String
  pub organization_id : Option String
  pub api_key_id : Option String

-- The parts of the request that are read; `none` is `undefined` or no text.
pub record HttpRequest : Type 0 where
  pub idempotency_key : Option String
  pub method : String
  pub user : Option AuthenticatedUser
  pub effective_organization_id : Option String
  pub ip : Option String
  pub base_url : Option String
  pub route_path : Option String
  pub path : Option String
  pub original_url : Option String
  pub request_hash : String

-- `a || b` on texts: the empty text is falsy.
infixr 4 ◌or_else◌
abbrev pub ◌or_else◌ : Option String → Option String → Option String
none or_else b = b
some a or_else b = if a == "" then b else some a

-- `request.user?.field`
abbrev pub of_user : (AuthenticatedUser → Option String) → HttpRequest → Option String
of_user f request = elim request.user [ none ↦ none | some user ↦ f user ]

abbrev prefixed : String → Option String → Option String
prefixed p none = none
prefixed p (some s) = if s == "" then none else some (String.◌++◌ p s)

unfoldable pub build_idempotent_request_scope_key : HttpRequest → String
build_idempotent_request_scope_key request =
    let organization_id =
      request.effective_organization_id
      or_else of_user (λ u. u.organization_id) request
      or_else none in
    let auth_scope =
      get_or
        (prefixed "api_key:" (of_user (λ u. u.api_key_id) request)
          or_else prefixed "user:" (of_user (λ u. u.user_id) request)
          or_else prefixed "ip:" request.ip)
        "anonymous" in
    elim organization_id [
      | none ↦ auth_scope
      | some organization ↦ String.◌++◌ auth_scope (String.◌++◌ "|org:" organization)
    ]

unfoldable pub build_idempotent_request_route_key : HttpRequest → String
build_idempotent_request_route_key request =
    let route_path : String = elim request.route_path [
      | some path ↦ path
      | none ↦ get_or (request.path or_else request.original_url or_else none) ""
    ] in
    get_or (some (String.◌++◌ (get_or request.base_url "") route_path) or_else none) "/"

-- What is thrown by the handler or the database: an instance of `Error`, or another value.
pub data Failure : Type 0 where
  error : String → Failure
  no_error : Failure

pub data Exception : Type 0 where
  idempotency_key_required : Exception
  idempotency : IdempotencyException → Exception
  failure : Failure → Exception

-- `error instanceof Error ? error : new Error('Unknown request error')`
abbrev pub as_error : Failure → Failure
as_error (error message) = error message
as_error no_error = error "Unknown request error"

pub record Response : Type 0 where
  pub status_code : ℕ
  pub body : Option Json

-- What the world answers: the database to `begin`, the handler, and the database to `complete` and
-- `release`. A statement that fails changes nothing.
pub record Answers : Type 0 where
  pub begin_done : Result Failure (Unit {0})
  pub handler : Result Failure Response
  pub complete_done : Result Failure (Unit {0})
  pub release_done : Result Failure (Unit {0})

-- What comes of a request: its response, whether the handler ran, and the table.
pub record Intercepted : Type 0 where
  pub result : Result Exception Response
  pub handled : Bool
  pub table : List IdempotentRequest

module _ (trim to_upper_case : String → String) where
  unfoldable pub extract_idempotency_key : HttpRequest → Option String
  extract_idempotency_key request = elim request.idempotency_key [
    | none ↦ none
    | some header_value ↦
        let normalized = trim header_value in if normalized == "" then none else some normalized
  ]

  unfoldable pub command_of : String → HttpRequest → BeginIdempotentRequestCommand
  command_of key request = record {
    key = record {
      scope_key = build_idempotent_request_scope_key request;
      idempotency_key = key;
      method = to_upper_case request.method;
      route_key = build_idempotent_request_route_key request;
    };
    request_hash = request.request_hash;
  }

module _ (saves : Saves IdempotentRequest request_id) where
  -- `catchError`: the request is released, and the error thrown on.
  unfoldable pub released : Answers → (id : String) → Failure → List IdempotentRequest → Intercepted
  released answers id thrown table = elim answers.release_done [
    | ok _ ↦ record {
      result = err (failure (as_error thrown));
      handled = true;
      table = release id table;
    }
    | err e ↦ record { result = err (failure e); handled = true; table = table }
  ]

  -- The handler, and then `complete`.
  unfoldable pub run_handler :
      Answers → (now : ℕ) (id : String) → List IdempotentRequest → Intercepted
  run_handler answers now id table = elim answers.handler [
    | err e ↦ released answers id e table
    | ok response ↦ elim answers.complete_done [
      | err e ↦ released answers id e table
      | ok _ ↦ record {
        result = ok response;
        handled = true;
        table = complete saves now id response.status_code (some (get_or response.body null)) table;
      }
    ]
  ]

  -- The answer to `begin`.
  unfoldable pub resolved :
      Answers
      → (during : List IdempotentRequest → List IdempotentRequest) → (done_at : ℕ)
      → Result IdempotencyException BeginIdempotentRequestResult × List IdempotentRequest
      → Intercepted
  resolved answers during done_at (err e, table) = record {
    result = err (idempotency e);
    handled = false;
    table = table;
  }
  resolved answers during done_at (ok (replay status_code body), table) = record {
    result = ok (record {
      status_code = status_code;
      body = if eqb status_code 204 then none else some body;
    });
    handled = false;
    table = table;
  }
  resolved answers during done_at (ok (started request_id), table) =
      run_handler answers done_at request_id (during table)

-- An idempotent HTTP route. `meanwhile` is what others write between the statements of `begin`, and
-- `during` what they write while the handler runs.
module _ (trim to_upper_case : String → String) (saves : Saves IdempotentRequest request_id) where
  unfoldable pub intercept :
      Answers
      → (meanwhile during : List IdempotentRequest → List IdempotentRequest)
      → (now done_at : ℕ) (id : String) → HttpRequest
      → List IdempotentRequest
      → Intercepted
  intercept answers meanwhile during now done_at id request table =
      elim (extract_idempotency_key trim to_upper_case request) [
        | none ↦ record { result = err idempotency_key_required; handled = false; table = table }
        | some key ↦ elim answers.begin_done [
          | err e ↦ record { result = err (failure e); handled = false; table = table }
          | ok _ ↦
              resolved saves answers during done_at
                (begin saves meanwhile now id (command_of trim to_upper_case key request) table)
        ]
      ]
