-- ===== src/Tests/Fixtures.antt =====
-- Concrete data for the tests: a float type, accounts, credentials, a database, an upstream.
use firecrawl_lb.Prelude.{
  ℕ, ◌+◌, ◌-◌, ◌*◌, ◌/◌, ltb, ◌==◌, ◌≡◌, String, true, false, Option, none, some, [], ◌∷◌, arith,
}
use firecrawl_lb.Prelude.Int.{pos, pos_part}
use firecrawl_lb.Json.{Fields, end, field, str, int}
use firecrawl_lb.Firecrawl.Models.{Account, Credential, AccountStatus, CredentialStatus, active}
use firecrawl_lb.Firecrawl.Records.{AccountRecord, CredentialRecord, JobRecord, Db}
use firecrawl_lb.Firecrawl.Client.{UpstreamResponse, Requester}
use firecrawl_lb.Firecrawl.Service.{Clock}
use firecrawl_lb.Firecrawl.Routing.Scores.{Floats}

pub toy_lt_irrefl : (a : ℕ) → ltb a a ≡ false
toy_lt_irrefl a = ground arith

pub toy_lt_trans : (a b c : ℕ) → ltb a b ≡ true → ltb b c ≡ true → ltb a c ≡ true
toy_lt_trans a b c h k = ground arith

pub toy_eq_sym : (a b : ℕ) → (a == b) ≡ true → (b == a) ≡ true
toy_eq_sym a b h = ground arith

pub toy_eq_trans : (a b c : ℕ) → (a == b) ≡ true → (b == c) ≡ true → (a == c) ≡ true
toy_eq_trans a b c h k = ground arith

pub toy_lt_eq : (a b c : ℕ) → ltb a b ≡ true → (b == c) ≡ true → ltb a c ≡ true
toy_lt_eq a b c h k = ground arith

pub toy_eq_lt : (a b c : ℕ) → (a == b) ≡ true → ltb b c ≡ true → ltb a c ≡ true
toy_eq_lt a b c h k = ground arith

-- Hundredths in place of floats.
abbrev pub toy_floats : Floats
toy_floats = record {
  F = ℕ;
  of_int = λ z. pos_part z * 100;
  literal = λ n. n;
  add = λ a b. a + b;
  sub = λ a b. a - b;
  mul = λ a b. a * b / 100;
  div = λ a b. a * 100 / b;
  lt = ltb;
  eq = λ a b. a == b;
  lt_irrefl = toy_lt_irrefl;
  lt_trans = toy_lt_trans;
  eq_sym = toy_eq_sym;
  eq_trans = toy_eq_trans;
  lt_eq = toy_lt_eq;
  eq_lt = toy_eq_lt;
}

abbrev pub key_one : Credential
key_one = record {
  id = "c1";
  api_key = "fc-1";
  status = CredentialStatus.active;
  name = none;
  last_error_at = none;
  last_error_message = none;
}

abbrev pub account_of : String → ℕ → Account
account_of id credits = record {
  id = id;
  team_label = "team";
  plan_type = "standard";
  remaining_credits = pos credits;
  plan_credits = pos 100;
  status = active;
  credentials = key_one ∷ [];
  cooldown_until = none;
  inflight = pos 0;
  rpm_used = [];
  queue_active_jobs = pos 0;
  queue_max_concurrency = none;
  recent_error_count = pos 0;
}

-- Two accounts that can serve a scrape, and a poor one.
abbrev pub rich : Account
rich = account_of "a1" 90

abbrev pub other_rich : Account
other_rich = account_of "a2" 40

abbrev pub poor : Account
poor = account_of "a3" 0

abbrev pub scrape : Fields
scrape = field "url" (str "https://example.com") end

abbrev pub stored : AccountStatus → ℕ → AccountRecord
stored status credits = record {
  id = "a1";
  team_label = "team";
  plan_type = "standard";
  status = status;
  monthly_budget_credits = none;
  remaining_credits_live = some (pos credits);
  plan_credits_live = some (pos 100);
  rpm_limit = none;
  billing_period_start = none;
  billing_period_end = none;
  queue_active_jobs = none;
  queue_waiting_jobs = none;
  queue_max_concurrency = none;
  cooldown_until = none;
  last_usage_refresh_at = none;
  last_queue_refresh_at = none;
  last_refresh_error_at = none;
  last_refresh_error_message = none;
}

abbrev pub stored_key : CredentialRecord
stored_key = record {
  id = "c1";
  account_id = "a1";
  name = none;
  api_key_encrypted = "fc-1";
  status = CredentialStatus.active;
  last_error_at = none;
  last_error_message = none;
}

abbrev pub crawl_job : JobRecord
crawl_job = record {
  id = 1;
  account_id = some "a1";
  credential_id = some "c1";
  endpoint = "crawl";
  upstream_job_id = some "job-1";
  status = "submitted";
  estimated_credits_reserved = some (pos 5);
  credits_used_final = none;
  completed_at = none;
  last_polled_at = none;
}

abbrev pub database : AccountStatus → Db
database status = record {
  accounts = stored status 90 ∷ [];
  credentials = stored_key ∷ [];
  jobs = crawl_job ∷ [];
  logs = [];
  next_job = 2;
}

-- Keys are stored as they are.
abbrev pub plain : String → Option String
plain key = some key

abbrev pub answer : ℕ → Fields → UpstreamResponse
answer status body = record {
  status = status;
  headers = [];
  json_body = some body;
  text_body = none;
}

-- An upstream that always gives one answer.
abbrev pub always : UpstreamResponse → Requester
always response request = some response

abbrev pub clock : Clock
clock = record { selection_time = 0; latency_ms = 1; now = 5 }

abbrev pub charged_seven : Fields
charged_seven = field "status" (str "completed") (field "creditsUsed" (int (pos 7)) end)
