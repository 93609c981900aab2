-- ===== src/Config.antt =====
-- internal/config/config.go. `getenv` is `os.Getenv`, `atoi` is `strconv.Atoi` and `parse_duration`
-- is `time.ParseDuration`; an error is its text.
pub mod Laws
use event_driven_arch.Common.{
  ℕ, ◌-◌, ◌%◌, ◌^◌, ◌*◌, String, Bool, List, [], ◌∷◌, Outcome, ok, err, str_eq, ltb, if◌then◌else◌,
}
use event_driven_arch.Common.Int.{ℤ, pos, negsuc}
use event_driven_arch.Domain.Entities.{Duration}

pub record Config : Type 0 where
  pub http_port : String
  pub read_timeout : Duration
  pub write_timeout : Duration
  pub shutdown_timeout : Duration
  pub database_url : String
  pub db_max_conns : ℤ
  pub db_min_conns : ℤ
  pub provider_base_url : String
  pub provider_timeout : Duration
  pub sms_workers : ℤ
  pub email_workers : ℤ
  pub push_workers : ℤ
  pub rate_limit : ℤ
  pub retry_backoff : List Duration
  pub scheduler_interval : Duration
  pub retry_interval : Duration

-- `n * time.Second`
abbrev pub seconds : ℕ → Duration
seconds n = pos (n * 1000000000)

-- The low 32 bits of an `int`, and the `int32` that they stand for.
low_32 : ℤ → ℕ
low_32 (pos n) = n % 2 ^ 32
low_32 (negsuc n) = 2 ^ 32 - 1 - n % 2 ^ 32

pub int32 : ℤ → ℤ
unfolding low_32
int32 n = let w = low_32 n in if ltb w (2 ^ 31) then pos w else negsuc (2 ^ 32 - 1 - w)

module _ (getenv : String → String) where
  get_env : String → String → String
  get_env key default_val = let v = getenv key in if str_eq v "" then default_val else v

  -- `getInt` and `getDuration`, which differ in what parses the text.
  parsed_or : {A : Type 0} → (String → Outcome String A) → String → A → A
  parsed_or parse key default_val =
      let v = getenv key in
      if str_eq v "" then default_val else elim (parse v) [ ok a ↦ a | err e ↦ default_val ]

module _ (getenv : String → String) (atoi : String → Outcome String ℤ)
    (parse_duration : String → Outcome String Duration) where
  get_int : String → ℤ → ℤ
  unfolding parsed_or
  get_int key default_val = parsed_or getenv atoi key default_val

  get_duration : String → Duration → Duration
  unfolding parsed_or
  get_duration key default_val = parsed_or getenv parse_duration key default_val

  loaded : String → Config
  unfolding get_env get_int get_duration int32
  loaded db_url = record {
    http_port = get_env getenv "HTTP_PORT" "8080";
    read_timeout = get_duration "READ_TIMEOUT" (seconds 5);
    write_timeout = get_duration "WRITE_TIMEOUT" (seconds 10);
    shutdown_timeout = get_duration "SHUTDOWN_TIMEOUT" (seconds 30);
    database_url = db_url;
    db_max_conns = int32 (get_int "DB_MAX_CONNS" (pos 25));
    db_min_conns = int32 (get_int "DB_MIN_CONNS" (pos 5));
    provider_base_url = get_env getenv "PROVIDER_BASE_URL" "https://webhook.site/your-uuid-here";
    provider_timeout = get_duration "PROVIDER_TIMEOUT" (seconds 10);
    sms_workers = get_int "SMS_WORKERS" (pos 5);
    email_workers = get_int "EMAIL_WORKERS" (pos 5);
    push_workers = get_int "PUSH_WORKERS" (pos 5);
    rate_limit = get_int "RATE_LIMIT_PER_CHANNEL" (pos 100);
    retry_backoff =
        get_duration "RETRY_BACKOFF_1" (seconds 5)
        ∷ get_duration "RETRY_BACKOFF_2" (seconds 30)
        ∷ get_duration "RETRY_BACKOFF_3" (seconds 120)
        ∷ [];
    scheduler_interval = get_duration "SCHEDULER_INTERVAL" (seconds 5);
    retry_interval = get_duration "RETRY_INTERVAL" (seconds 10);
  }

  -- `Load`
  unfoldable pub load : Outcome String Config
  unfolding loaded
  load =
      let db_url = getenv "DATABASE_URL" in
      if str_eq db_url "" then err "DATABASE_URL is required" else ok (loaded db_url)
