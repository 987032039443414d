-- ===== src/Firecrawl/Client.antt =====
-- app/modules/firecrawl/client.py: a request to the upstream and what comes back. The network is a
-- function from requests to responses; `none` is an exception of the transport.
use firecrawl_lb.Prelude.{ℕ, String, Option}
use firecrawl_lb.Prelude.Dict.{Dict}
use firecrawl_lb.Json.{Fields}

pub record UpstreamResponse : Type 0 where
  pub status : ℕ
  pub headers : Dict String
  pub json_body : Option Fields
  pub text_body : Option String

pub record UpstreamRequest : Type 0 where
  pub method : String
  pub path : String
  pub api_key : String
  pub json : Option Fields
  pub params : Dict String

abbrev pub Requester : Type 0
Requester = UpstreamRequest → Option UpstreamResponse
