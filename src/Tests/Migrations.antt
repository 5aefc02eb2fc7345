-- ===== src/Tests/Migrations.antt =====
-- A directory with two files of the same version, and scripts that are counted.
use Prim.Native.String.{String}
use multi_trade_platform.Base.{ℕ, ◌+◌, ◌≡◌, refl, true, false, List, [], ◌∷◌, Option, some}
use multi_trade_platform.Migrations.{
  Entry, Migration, Session, succeeded, migrate, apply, apply_all, run_migrations, sort_files,
  migration_files,
}
use multi_trade_platform.Migrations.Laws.{run_migrations_again}

abbrev counted : String → ℕ → Option ℕ
counted sql n = some (n + 1)

abbrev suffix : List ℕ
suffix = b'.' ∷ b'u' ∷ b'p' ∷ b'.' ∷ b's' ∷ b'q' ∷ b'l' ∷ []

-- "02_b.up.sql", "01_a.up.sql", "02_c.up.sql" and a directory
abbrev file : ℕ → ℕ → Entry
file digit letter = record {
  is_dir = false;
  name = b'0' ∷ digit ∷ b'_' ∷ letter ∷ suffix;
  content = some "CREATE TABLE";
}

abbrev directory : List Entry
directory =
    file b'2' b'b'
    ∷ file b'1' b'a'
    ∷ file b'2' b'c'
    ∷ record (file b'3' b'd') { is_dir = true }
    ∷ []

abbrev before_run : Session ℕ
before_run = record { rows = []; tables = 0; faults = [] }

-- Two scripts have run.
abbrev after_run : Session ℕ
after_run = record { rows = (1, false) ∷ (2, false) ∷ []; tables = 2; faults = [] }

run_migrations_again_example : run_migrations counted directory after_run ≡ succeeded after_run
unfolding run_migrations apply_all apply migrate sort_files migration_files
run_migrations_again_example = run_migrations_again counted directory before_run after_run refl refl

abbrev migration : Migration
migration = record { version = 2; content = some "CREATE TABLE" }
