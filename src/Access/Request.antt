-- ===== src/Access/Request.antt =====
-- src/common/http/authenticated-request.ts, and what the guards throw.
use hexagonal.Base.{String, Option, none, some, List, ◌==◌, if◌then◌else◌}

pub data AuthMethod : Type 0 where
  jwt : AuthMethod
  api_key : AuthMethod

pub record AuthenticatedUserPayload : Type 0 where
  pub user_id : String
  pub email : String
  pub auth_method : AuthMethod
  pub organization_id : Option String
  pub api_key_id : Option String
  pub api_key_name : Option String
  pub api_key_scopes : Option (List String)

-- The headers are those that are a text; `none` is `undefined`, or a list of texts.
pub record AuthenticatedHttpRequest : Type 0 where
  pub authorization : Option String
  pub x_api_key : Option String
  pub x_organization_id : Option String
  pub x_forwarded_for : Option String
  pub ip : Option String
  pub user : Option AuthenticatedUserPayload
  pub effective_organization_id : Option String

pub data HttpException : Type 0 where
  unauthorized : String → HttpException
  forbidden : String → HttpException

-- What the runtime does with texts.
pub record Texts : Type 0 where
  pub trim : String → String
  pub split : (separator text : String) → List String

-- A text that is not empty; the empty one is falsy.
abbrev pub truthy : Option String → Option String
truthy none = none
truthy (some s) = if s == "" then none else some s

-- `typeof header === 'string' ? header.trim() : ''`, if that is not empty.
abbrev pub trimmed : Texts → Option String → Option String
trimmed texts none = none
trimmed texts (some s) = truthy (some (texts.trim s))
