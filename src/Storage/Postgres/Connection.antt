-- ===== src/Storage/Postgres/Connection.antt =====
-- pkg/storage/postgres.go.  `migrate_new` and `up` are what the code calls of golang-migrate,
-- `sql_connect` is sqlx.Connect with the driver "postgres"; X is what stands outside.
use iamzero.Prelude.{ℕ, String, ◌≡◌, Bool, true, false, refl, ap, ◌∙◌, sym, if◌then◌else◌}
use iamzero.Prelude.Text.{◌<>◌}
use iamzero.Prelude.Digits.{decimal}
use iamzero.Prelude.Outcome.{Outcome, ok, err, Error, wrap, Exec, ◌>>=◌, ◌>>◌, pure, lift, wrapping}

pub record PostgresStorage : Type 0 where
  pub host : String
  pub port : ℕ
  pub database : String
  pub user : String
  pub password : String
  pub ssl_mode : String
  pub auto_run_migrations : Bool

info_with : String → PostgresStorage → String
info_with password p =
    "host="
    <> p.host
    <> " port="
    <> decimal p.port
    <> " user="
    <> p.user
    <> " password="
    <> password
    <> " dbname="
    <> p.database
    <> " sslmode="
    <> p.ssl_mode

unfoldable pub psql_info_string : PostgresStorage → String
unfolding info_with
psql_info_string p = info_with p.password p

unfoldable pub connection_string : PostgresStorage → String
connection_string p =
    "postgres://"
    <> p.user
    <> ":"
    <> p.password
    <> "@"
    <> p.host
    <> ":"
    <> decimal p.port
    <> "/"
    <> p.database
    <> "?sslmode="
    <> p.ssl_mode

-- What Up returns: no error, ErrNoChange, or another error.
pub data Up : Type 0 where
  applied : Up
  no_change : Up
  up_failed : Error → Up

-- errors.Wrap of no error is no error.
migrated : Up → Outcome (Unit {0})
migrated applied = ok tt
migrated no_change = ok tt
migrated (up_failed e) = err (wrap "applying migrations" e)

module _ {X Migrate Db : Type 0} (migrate_new : String → Exec X Migrate) (up : Migrate → Exec X Up)
    (sql_connect : String → Exec X Db) where
  unfoldable pub run_migration : PostgresStorage → Exec X (Unit {0})
  unfolding migrated
  run_migration p = do
    m ←
        wrapping "error connecting to database while running migrations"
          (migrate_new (connection_string p))
    result ← up m
    lift (migrated result)

  unfoldable pub connect : PostgresStorage → Exec X Db
  unfolding info_with
  connect p = do
    if p.auto_run_migrations then run_migration p else pure tt
    wrapping ("connecting to postgres with these params : " <> info_with "**hidden**" p)
        (sql_connect (psql_info_string p))

  fails_after :
      (enabled : Bool) (migrate : Exec X (Unit {0})) (connecting : Exec X Db) (message : String)
      (x y z : X) (e : Error)
      → (if enabled then migrate else pure tt) x ≡ (ok tt, y)
      → connecting y ≡ (err e, z)
      → ((if enabled then migrate else pure tt) >> wrapping message connecting) x
        ≡ (err (wrap message e), z)
  fails_after false migrate connecting message x y z e m h = rw (ap (λ r. r.1) m, h) refl
  fails_after true migrate connecting message x y z e m h = rw (m, h) refl

  -- The migrations, where they are enabled.
  abbrev migrate_if_enabled : PostgresStorage → Exec X (Unit {0})
  migrate_if_enabled p = if p.auto_run_migrations then run_migration p else pure tt

  -- Two settings that differ in the password alone, and with which the migrations, where they are
  -- enabled, go through and the driver then fails with one error: Connect fails with one error too,
  -- which is the driver's, wrapped in a text that is made without the password.
  connect-hides :
      (p : PostgresStorage) (other : String) (x y z : X) (e : Error)
      → migrate_if_enabled p x ≡ (ok tt, y)
      → migrate_if_enabled (record p { password = other }) x ≡ (ok tt, y)
      → sql_connect (psql_info_string p) y ≡ (err e, z)
      → sql_connect (psql_info_string (record p { password = other })) y ≡ (err e, z)
      → connect (record p { password = other }) x ≡ connect p x
  unfolding connect info_with
  connect-hides p other x y z e m n h k =
      fails_after p.auto_run_migrations (run_migration (record p { password = other })) _ _ x y z e
        n k
      ∙ sym (fails_after p.auto_run_migrations (run_migration p) _ _ x y z e m h)
