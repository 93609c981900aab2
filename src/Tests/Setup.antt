-- ===== src/Tests/Setup.antt =====
-- The theorems on what `main` sets up, at a concrete environment and concrete libraries.
use event_driven_arch.Common.{
  ℕ, zero, suc, ◌+◌, String, ◌≡◌, ◌↔◌, List, [], ◌∷◌, Outcome, ok, err, refl, str_eq, if◌then◌else◌,
}
use event_driven_arch.Common.Int.{ℤ, pos, ◌+ℤ◌}
use event_driven_arch.Database.{PoolDriver, Migrator, connect, migrate}
use event_driven_arch.Domain.Entities.{Duration, queued}
use event_driven_arch.Main.{App, serving, boot}
use event_driven_arch.Config.{Config, load, seconds}
use event_driven_arch.Pool.{PoolWorker, new_pool}
use event_driven_arch.Queue
use event_driven_arch.RateLimiter.{new}
use event_driven_arch.Main.Laws.{BootSpec, boot-BootSpec}
use event_driven_arch.Metrics.{Client, Metrics}
use event_driven_arch.Metrics.Laws.{Counts}
use event_driven_arch.Provider.{HttpClient, send}
use event_driven_arch.Provider.Laws.{Accepted, send-ok_iff}
use event_driven_arch.Tests.{notification}
use event_driven_arch.Worker.{SendResponse, Metric, on_sent, on_failed}

-- An environment with a URL and a number that does not parse.
abbrev pub getenv : String → String
getenv key =
    if str_eq key "DATABASE_URL"
    then "postgresql://user@host/db"
    else if str_eq key "SMS_WORKERS"
    then "many"
    else ""

abbrev pub atoi : String → Outcome String ℤ
atoi text = err "invalid syntax"

abbrev pub parse_duration : String → Outcome String Duration
parse_duration text = err "invalid duration"

abbrev pub driver : PoolDriver String String
driver = record {
  parse_config = λ url. ok url;
  set_conns = λ most least c. c;
  new_with_config = λ c. ok c;
  ping = λ pool. ok tt;
}

abbrev pub migrator : Migrator String
migrator = record {
  new = λ source url. ok url;
  up = λ m. err "no change";
  no_change = λ e. str_eq e "no change";
}

boot-BootSpec_example :
    BootSpec driver migrator
      (λ rate burst. rate)
      getenv
      atoi
      parse_duration
      (boot driver migrator (λ rate burst. rate) getenv atoi parse_duration)
boot-BootSpec_example =
    boot-BootSpec driver migrator (λ rate burst. rate) getenv atoi parse_duration

abbrev response : SendResponse
response = record { message_id = "m1"; status = "accepted"; timestamp = "now" }

abbrev http : HttpClient String
http = record {
  marshal = λ req. ok req.content;
  new_request = λ url body. ok body;
  set_header = λ name value req. req;
  call = λ req. ok (record { status_code = 202; body = "m1" });
  decode = λ body. ok response;
  status_text = λ code. "unexpected provider status";
}

send-ok_iff_example :
    (send http "https://webhook.site/x" (notification queued 0) ≡ ok response)
    ↔ Accepted http "https://webhook.site/x" (notification queued 0) response
send-ok_iff_example = send-ok_iff http "https://webhook.site/x" (notification queued 0) response

-- A vector of counters as the list of the labels that were counted.
abbrev times : String → List String → ℕ
times channel [] = 0
times channel (other ∷ rest) = (if str_eq channel other then 1 else 0) + times channel rest

abbrev client : Client (List String) (List Duration) String (List String)
client = record {
  counter_vec = λ name help labels. [];
  histogram_vec = λ name help labels. [];
  gauge = λ name help. name;
  inc = λ channel c. channel ∷ c;
  observe = λ channel latency h. latency ∷ h;
}

client-counts : Counts client times
client-counts channel other c = refl

abbrev counters : Metrics (List String) (List Duration) String
counters = record {
  notifications_sent = [];
  notifications_failed = [];
  notification_latency = [];
  queue_depth_high = "high";
  queue_depth_normal = "normal";
  queue_depth_low = "low";
}

abbrev calls : List Metric
calls =
    on_sent "sms" (pos 3) ∷ on_failed "sms" ∷ on_sent "push" (pos 4) ∷ on_sent "sms" (pos 5) ∷ []

-- The configuration where no variable is set but the URL.
abbrev pub defaults : Config
defaults = record {
  http_port = "8080";
  read_timeout = seconds 5;
  write_timeout = seconds 10;
  shutdown_timeout = seconds 30;
  database_url = "postgresql://user@host/db";
  db_max_conns = pos 25;
  db_min_conns = pos 5;
  provider_base_url = "https://webhook.site/your-uuid-here";
  provider_timeout = seconds 10;
  sms_workers = pos 5;
  email_workers = pos 5;
  push_workers = pos 5;
  rate_limit = pos 100;
  retry_backoff = seconds 5 ∷ seconds 30 ∷ seconds 120 ∷ [];
  scheduler_interval = seconds 5;
  retry_interval = seconds 10;
}

abbrev numbered : ℕ → ℕ → List PoolWorker
numbered i zero = []
numbered i (suc n) = record { id = i; backoff = defaults.retry_backoff } ∷ numbered (i + 1) n

abbrev pub app : App String ℤ
app = record {
  cfg = defaults;
  pool = "postgresql://user@host/db";
  queue = Queue.new;
  limiters = new (λ rate burst. rate) (pos 100);
  provider_url = "https://webhook.site/your-uuid-here";
  workers = numbered 0 15;
  retry_interval = seconds 10;
  scheduler_interval = seconds 5;
  addr = ":8080";
}

pub up : boot driver migrator (λ rate burst. rate) getenv atoi parse_duration ≡ serving app
unfolding boot load connect migrate new_pool ◌+ℤ◌
up = refl
