-- ===== src/Config/Laws.antt =====
-- What the configuration that is loaded may hold.
use event_driven_arch.Common.{
  ℕ, ◌-◌, ◌^◌, ◌≤◌, String, ◌≡◌, ◌≢◌, inl, inr, List, [], ◌∷◌, some, Outcome, ok, err, arith, refl,
  str_eq, eq_iff, Bool-cases,
}
use event_driven_arch.Common.Int.{ℤ, pos, negsuc, ◌≤ℤ◌}
use event_driven_arch.Domain.Entities.{Duration}
use event_driven_arch.Worker.{delay}
use event_driven_arch.Worker.Delays.{delay_of_three}
use event_driven_arch.Config.{Config, low_32, int32, loaded, load}

abbrev pub IsInt32 : ℤ → Type 0
IsInt32 n = (negsuc (2 ^ 31 - 1) ≤ℤ n) × (n ≤ℤ pos (2 ^ 31 - 1))

int32-IsInt32 : (n : ℤ) → IsInt32 (int32 n)
unfolding int32 low_32
int32-IsInt32 (pos n) = ground arith
int32-IsInt32 (negsuc n) = ground arith

-- The delays before the attempts: one for each of the first three, the third one from there on.
abbrev pub HasThreeDelays : List Duration → Type 0
HasThreeDelays backoff =
    (first : Duration) × (second : Duration) × (third : Duration) × (delay backoff 0 ≡ some first)
    × (delay backoff 1 ≡ some second)
    × ((n : ℕ) → 2 ≤ n → delay backoff n ≡ some third)

abbrev pub LoadSpec : (String → String) → Outcome String Config → Type 0
LoadSpec getenv (ok cfg) =
    (cfg.database_url ≢ "")
    × (cfg.database_url ≡ getenv "DATABASE_URL")
    × IsInt32 cfg.db_max_conns
    × IsInt32 cfg.db_min_conns
    × (cfg.retry_backoff ≢ [])
    × HasThreeDelays cfg.retry_backoff
LoadSpec getenv (err e) = getenv "DATABASE_URL" ≡ ""

module _ (getenv : String → String) (atoi : String → Outcome String ℤ)
    (parse_duration : String → Outcome String Duration) where
  three_delays : (a b d : Duration) → HasThreeDelays (a ∷ b ∷ d ∷ [])
  three_delays a b d =
      let h : (n : ℕ) → _ = delay_of_three a b d in (a, b, d, (h 0).0, (h 0).1, λ n. (h n).2)

  loaded-LoadSpec :
      (url : String)
      → url ≢ ""
      → url ≡ getenv "DATABASE_URL"
      → LoadSpec getenv (ok (loaded getenv atoi parse_duration url))
  unfolding loaded
  loaded-LoadSpec url given same =
      (given, same, int32-IsInt32 _, int32-IsInt32 _, (λ h. cc), three_delays _ _ _)

  -- Whatever the environment and the parsers of numbers and durations: `Load` fails only if no
  -- database URL is given. Otherwise the configuration has that URL, its two pool sizes are within an
  -- `int32`, and there is a delay for every attempt: one for each of the first three, the third one
  -- from there on.
  pub load-LoadSpec : LoadSpec getenv (load getenv atoi parse_duration)
  unfolding load
  load-LoadSpec = elim (Bool-cases (str_eq (getenv "DATABASE_URL") "")) [
    | inl empty ↦ rw (empty, load) ((eq_iff (getenv "DATABASE_URL") "").0 empty)
    | inr given ↦
        rw (given, load)
          (loaded-LoadSpec (getenv "DATABASE_URL")
            (ground (arith, eq_iff (getenv "DATABASE_URL") "")) refl)
  ]
