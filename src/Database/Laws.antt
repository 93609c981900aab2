-- ===== src/Database/Laws.antt =====
-- When the database counts as reached, and as migrated.
use Prim.Native.Char.{code}
use Prim.Native.String.{len, slice, ◌++◌, ◌∷◌}
use text.Mathlib.Text.{starts_with}
use text.Mathlib.TextEquality.{starts_with_iff}
use text.Mathlib.TextLemmas.{cons-append, append_assoc, append_cancel_left, head-eq_of_cons-eq}
use text.Mathlib.TextPositions.{starts_with-append, slice-append_right, len-append}
use event_driven_arch.Common.{
  String, ◌≡◌, sym, ap, ◌∙◌, true, false, arith, Bool-cases, inl, inr, ◌⊎◌, Outcome, ok, err, refl,
  Failure,
}
use event_driven_arch.Config.{Config}
use event_driven_arch.Database.{
  postgresql_scheme, postgres_scheme, migration_url, PoolDriver, in_use, pinged, pooled, configured,
  connect, Migrator, upped, opened, migrate,
}

long_form : (rest : String) → migration_url (postgresql_scheme ++ rest) ≡ "pgx5://" ++ rest
unfolding migration_url
long_form rest = rw (starts_with-append postgresql_scheme rest) (
    ap (λ t. "pgx5://" ++ t)
      (ap (slice (postgresql_scheme ++ rest) (len postgresql_scheme))
          (len-append postgresql_scheme rest)
        ∙ slice-append_right postgresql_scheme rest))

not_long : (rest : String) → starts_with (postgres_scheme ++ rest) postgresql_scheme ≡ false
not_long rest = elim (Bool-cases (starts_with (postgres_scheme ++ rest) postgresql_scheme)) [
  | inr no_prefix ↦ no_prefix
  | inl prefix ↦
      let (tail, e) = (starts_with_iff (postgres_scheme ++ rest) postgresql_scheme).0 prefix in
      let e₁ : "postgres" ++ ("ql://" ++ tail) ≡ "postgres" ++ ("://" ++ rest) =
        sym (append_assoc "postgres" "ql://" tail) ∙ e ∙ append_assoc "postgres" "://" rest in
      let e₂ : "ql://" ++ tail ≡ "://" ++ rest = append_cancel_left "postgres" _ _ e₁ in
      let e₃ : "q" ∷ ("l://" ++ tail) ≡ ":" ∷ ("//" ++ rest) =
        sym (cons-append "q" "l://" tail) ∙ e₂ ∙ cons-append ":" "//" rest in
      absurd (let e₄ = ap code (head-eq_of_cons-eq e₃) in omega arith)
]

short_form : (rest : String) → migration_url (postgres_scheme ++ rest) ≡ "pgx5://" ++ rest
unfolding migration_url
short_form rest =
    rw (not_long rest, starts_with-append postgres_scheme rest)
      (ap (λ t. "pgx5://" ++ t)
        (ap (slice (postgres_scheme ++ rest) (len postgres_scheme))
            (len-append postgres_scheme rest)
          ∙ slice-append_right postgres_scheme rest))

-- What is left of a URL without its scheme.
abbrev pub IsRest : String → String → Type 0
IsRest url rest =
    (url ≡ postgresql_scheme ++ rest)
    ⊎ (url ≡ postgres_scheme ++ rest)
    ⊎ ((starts_with url postgresql_scheme ≡ false)
        × (starts_with url postgres_scheme ≡ false)
        × (url ≡ rest))

-- The migrations run against one URL, with the scheme `pgx5`, whichever of the two schemes of
-- PostgreSQL the configured URL has; a text with neither is put behind that scheme as it is.
migration_url_lem : (url rest : String) → IsRest url rest → migration_url url ≡ "pgx5://" ++ rest
unfolding migration_url
migration_url_lem url rest (inl long) = rw long (long_form rest)
migration_url_lem url rest (inr (inl short)) = rw short (short_form rest)
migration_url_lem url rest (inr (inr (not_long, not_short, same))) =
    rw (not_long, not_short) (ap (λ t. "pgx5://" ++ t) same)

module _ {C P : Type 0} (driver : PoolDriver C P) where
  -- The pool was made from the URL and the limits of the configuration, and answered a ping.
  abbrev pub HasAnswered : Config → P → Type 0
  HasAnswered cfg pool =
      (pool_cfg : C) × (driver.parse_config cfg.database_url ≡ ok pool_cfg)
      × (driver.new_with_config (driver.set_conns cfg.db_max_conns cfg.db_min_conns pool_cfg)
          ≡ ok pool)
      × (driver.ping pool ≡ ok tt)

  pinged-in_use :
      (p pool : P) (r : Failure String) → pinged driver p r ≡ in_use pool → (p ≡ pool) × (r ≡ ok tt)
  unfolding pinged
  pinged-in_use p pool (ok _) h = (cc, refl)
  pinged-in_use p pool (err e) h = absurd (cc)

  pooled-in_use :
      (o : Outcome String P) (pool : P)
      → pooled driver o ≡ in_use pool
      → (o ≡ ok pool) × (driver.ping pool ≡ ok tt)
  unfolding pooled
  pooled-in_use (ok p) pool h =
      let (same, answered) = pinged-in_use p pool (driver.ping p) h in
      (ap ok same, rw same at answered)
  pooled-in_use (err e) pool h = absurd (cc)

  -- `Connect` returns a pool only if it has answered.
  pub connect-HasAnswered :
      (cfg : Config) (pool : P) → connect driver cfg ≡ in_use pool → HasAnswered cfg pool
  unfolding connect
  connect-HasAnswered cfg pool h = parsed (driver.parse_config cfg.database_url) refl h
    where
      parsed :
          (o : Outcome String C)
          → driver.parse_config cfg.database_url ≡ o
          → configured driver cfg o ≡ in_use pool
          → HasAnswered cfg pool
      parsed (ok pool_cfg) is h =
          let (made, answered) = pooled-in_use _ pool (unfold configured in h) in
          (pool_cfg, is, made, answered)
      parsed (err e) is h = absurd (unfold configured in cc)

module _ {M : Type 0} (migrator : Migrator M) where
  -- All migrations of the directory ran on the database of the URL, or none was left to run.
  abbrev pub HasMigrated : String → Type 0
  HasMigrated database_url =
      (url : String) × (m : M) × ((rest : String)
        → IsRest database_url rest
        → url ≡ "pgx5://" ++ rest)
      × (migrator.new "file://migrations" url ≡ ok m)
      × ((migrator.up m ≡ ok tt)
          ⊎ ((e : String) × (migrator.up m ≡ err e) × (migrator.no_change e ≡ true)))

  upped-ok :
      (r : Failure String)
      → upped migrator r ≡ ok tt
      → (r ≡ ok tt) ⊎ ((e : String) × (r ≡ err e) × (migrator.no_change e ≡ true))
  unfolding upped
  upped-ok (ok _) h = inl refl
  upped-ok (err e) h = elim (Bool-cases (migrator.no_change e)) [
    | inl none_left ↦ inr (e, refl, none_left)
    | inr failed ↦ absurd (ground arith)
  ]

  -- `Migrate` returns nil only if the database has been migrated.
  pub migrate-HasMigrated : (url : String) → migrate migrator url ≡ ok tt → HasMigrated url
  unfolding migrate
  migrate-HasMigrated url h = made (migrator.new "file://migrations" (migration_url url)) refl h
    where
      made :
          (o : Outcome String M)
          → migrator.new "file://migrations" (migration_url url) ≡ o
          → opened migrator o ≡ ok tt
          → HasMigrated url
      made (ok m) is h = (
        migration_url url,
        m,
        migration_url_lem url,
        is,
        upped-ok (migrator.up m) (unfold opened in h),
      )
      made (err e) is h = absurd (unfold opened in cc)
