-- ===== src/Resilience/Overload.antt =====
-- app/core/resilience/overload.py and app/core/errors.py: the refusals of the admission layers.
use firecrawl_lb.Prelude.{ℕ, String, Bool, ◌||◌, if◌then◌else◌}
use firecrawl_lb.Prelude.Text.{str_eq, starts_with}

pub data ScopeType : Type 0 where
  http websocket lifespan : ScopeType

-- What the server hands to a middleware: the kind of the connection, and its path.
pub record Scope : Type 0 where
  pub scope_type : ScopeType
  pub path : String

abbrev pub is_proxy_path : String → Bool
is_proxy_path path = str_eq path "/v2" || starts_with path "/v2/"

abbrev pub is_health_path : String → Bool
is_health_path path = starts_with path "/health"

-- The JSON body: the error envelope of the proxied API, or `{"detail": message}`.
pub data Payload : Type 0 where
  envelope : String → String → String → Payload
  detail : String → Payload

unfoldable pub local_overload_error : String → Payload
local_overload_error message = envelope "proxy_overloaded" message "rate_limit_error"

unfoldable pub local_unavailable_error : String → Payload
local_unavailable_error message = envelope "proxy_unavailable" message "server_error"

abbrev pub local_overload_retry_after_seconds : String
local_overload_retry_after_seconds = "5"

-- A refusal as it is sent, over HTTP or as the denial of a websocket.
pub record Rejection : Type 0 where
  pub scope_type : ScopeType
  pub status_code : ℕ
  pub payload : Payload
  pub retry_after : String

abbrev pub payload_for : String → Payload → String → Payload
payload_for path error message = if is_proxy_path path then error else detail message
