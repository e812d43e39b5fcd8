-- ===== src/Shim/Check/Types.antt =====
-- src/shim.rs: the settings, the bodies of pangolin's endpoints, and what the handler returns. What
-- pangolin answers is the argument `Pangolin`.
use pangolin_gateway_api.Prelude.{ℕ, Bool, false, List, [], Option, none, Text}
use pangolin_gateway_api.BTreeMap.{BTreeMap}
use pangolin_gateway_api.External.{Url}
use pangolin_gateway_api.Shim.{HeaderMap}

pub record ShimConfig : Type 0 where
  pub listen : Text
  pub pangolin_api_base_url : Url
  pub path_prefix : Text
  pub user_session_cookie_name : Text
  pub resource_session_request_param : Text
  pub timeout : ℕ
  pub ca_file : Option Text
  pub tls_skip_verify : Bool

pub record VerifyBody : Type 0 where
  pub sessions : BTreeMap Text Text
  pub headers : BTreeMap Text Text
  pub query : BTreeMap Text Text
  pub original_request_url : Text
  pub scheme : Text
  pub host : Text
  pub path : Text
  pub method : Text
  pub tls : Bool
  pub request_ip : Option Text

pub record UserData : Type 0 where
  pub user_id : Option Text
  pub username : Option Text
  pub email : Option Text
  pub name : Option Text
  pub role : Option Text

pub record VerifyData : Type 0 where
  pub valid : Bool
  pub redirect_url : Option Text
  pub header_auth_challenged : Option Bool
  pub user_data : Option UserData

-- `VerifyData::default`.
abbrev pub default_verify : VerifyData
default_verify = record {
  valid = false;
  redirect_url = none;
  header_auth_challenged = none;
  user_data = none;
}

pub record ExchangeBody : Type 0 where
  pub request_token : Text
  pub host : Text
  pub request_ip : Option Text

pub record ExchangeData : Type 0 where
  pub valid : Bool
  pub cookie : Option Text

-- `ExchangeData::default`.
abbrev pub default_exchange : ExchangeData
default_exchange = record { valid = false; cookie = none }

-- How a POST ends: not sent, or answered, with `is_success` of the status and with the body where it
-- decodes.
pub data Reply (A : Type 0) : Type 0 where
  unsent : Reply A
  answered : Bool → Option A → Reply A

-- Pangolin's two endpoints, and `Url::parse` for their addresses.
pub record Pangolin : Type 0 where
  pub parse_url : Text → Option Url
  pub verify : Url → VerifyBody → Reply VerifyData
  pub exchange : Url → ExchangeBody → Reply ExchangeData

pub record Request : Type 0 where
  pub path_and_query : Option Text
  pub headers : HeaderMap
  pub method : Text

pub record Response : Type 0 where
  pub status : ℕ
  pub headers : List (Text × Text)
  pub body : Text

-- A handler returns a response, or panics in `expect`.
pub data Answer : Type 0 where
  responds : Response → Answer
  panics : Answer

abbrev pub plain : ℕ → Text → Response
plain status msg = record { status = status; headers = []; body = msg }
