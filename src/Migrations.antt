-- ===== src/Migrations.antt =====
-- internal/database: RunMigrations on the files of a directory. The effect of an SQL script on the tables is a
-- parameter. A version is digits alone: one with a sign in front is not read as ParseInt would.
pub mod Laws
use Prim.Native.String.{String}
use multi_trade_platform.Base.{
  ℕ, suc, ◌+◌, ◌-◌, ◌*◌, ◌^◌, Bool, true, false, ◌&&◌, ◌||◌, List, [], ◌∷◌, ◌++◌, Option, none,
  some, ◌==◌, leb, ltb, if◌then◌else◌, length, drop,
}

-- A directory entry: a name in bytes, and the content if it can be read.
pub record Entry : Type 0 where
  pub is_dir : Bool
  pub name : List ℕ
  pub content : Option String

-- migrationFile, with what ReadFile returns for its path.
pub record Migration : Type 0 where
  pub version : ℕ
  pub content : Option String

abbrev equal_bytes : List ℕ → List ℕ → Bool
equal_bytes [] [] = true
equal_bytes (x ∷ xs) (y ∷ ys) = x == y && equal_bytes xs ys
equal_bytes _ _ = false

abbrev has_suffix : List ℕ → List ℕ → Bool
has_suffix xs suffix =
    leb (length suffix) (length xs) && equal_bytes (drop (length xs - length suffix) xs) suffix

-- ".up.sql"
abbrev up_sql : List ℕ
up_sql = b'.' ∷ b'u' ∷ b'p' ∷ b'.' ∷ b's' ∷ b'q' ∷ b'l' ∷ []

-- The part in front of the first underscore, if there is one.
abbrev before_underscore : List ℕ → Option (List ℕ)
before_underscore [] = none
before_underscore (b ∷ bs) =
    let rest = before_underscore bs in
    if b == b'_' then some [] else elim rest [ none ↦ none | some part ↦ some (b ∷ part) ]

abbrev is_digit : ℕ → Bool
is_digit b = leb b'0' b && leb b b'9'

abbrev digits : ℕ → List ℕ → Option ℕ
digits acc [] = if ltb acc (2 ^ 63) then some acc else none
digits acc (b ∷ bs) =
    let rest = digits (acc * 10 + (b - b'0')) bs in if is_digit b then rest else none

-- strconv.ParseInt(s, 10, 64)
abbrev parse_int : List ℕ → Option ℕ
parse_int [] = none
parse_int (b ∷ bs) = digits 0 (b ∷ bs)

abbrev version_of : Option (List ℕ) → Option ℕ
version_of none = none
version_of (some part) = parse_int part

abbrev with_version : Option ℕ → Option String → List Migration → List Migration
with_version none content ms = ms
with_version (some v) content ms = record { version = v; content = content } ∷ ms

-- The loop over the directory.
unfoldable pub migration_files : List Entry → List Migration
migration_files [] = []
migration_files (e ∷ es) =
    let rest = migration_files es in
    if e.is_dir
    then rest
    else if has_suffix e.name up_sql
    then with_version (version_of (before_underscore e.name)) e.content rest
    else rest

abbrev insert_by_version : Migration → List Migration → List Migration
insert_by_version m [] = m ∷ []
insert_by_version m (x ∷ xs) =
    if leb m.version x.version then m ∷ x ∷ xs else x ∷ insert_by_version m xs

-- sort.Slice, which inserts where there are so few files.
unfoldable pub sort_files : List Migration → List Migration
sort_files [] = []
sort_files (m ∷ ms) = insert_by_version m (sort_files ms)

-- schema_migrations: the flag `dirty` of each version, which is the primary key.
abbrev pub Rows : Type 0
Rows = List (ℕ × Bool)

abbrev pub dirty_flag : ℕ → Rows → Option Bool
dirty_flag v [] = none
dirty_flag v ((u, d) ∷ rs) = if u == v then some d else dirty_flag v rs

-- INSERT … ON CONFLICT (version) DO UPDATE SET dirty = true
abbrev pub mark_dirty : ℕ → Rows → Rows
mark_dirty v [] = (v, true) ∷ []
mark_dirty v ((u, d) ∷ rs) = if u == v then (u, true) ∷ rs else (u, d) ∷ mark_dirty v rs

-- UPDATE … SET dirty = false WHERE version = $1
abbrev pub mark_clean : ℕ → Rows → Rows
mark_clean v [] = []
mark_clean v ((u, d) ∷ rs) = (u, (if u == v then false else d)) ∷ mark_clean v rs

-- The tables, and which statements to come will fail.
pub record Session (S : Type 0) : Type 0 where
  pub rows : Rows
  pub tables : S
  pub faults : List Bool

pub data Outcome (S : Type 0) : Type 0 where
  succeeded : Session S → Outcome S
  failed : Session S → Outcome S

infixl 5 ◌>>=◌
abbrev pub ◌>>=◌ : {S : Type 0} → Outcome S → (Session S → Outcome S) → Outcome S
succeeded s >>= f = f s
failed s >>= f = failed s

abbrev pub tail_of : List Bool → List Bool
tail_of [] = []
tail_of (f ∷ fs) = fs

abbrev pub fails : List Bool → Bool
fails [] = false
fails (f ∷ fs) = f

-- tx.Exec(sqlContent): the tables after a script, or none if it has an error.
module _ {S : Type 0} (exec : String → S → Option S) where
  -- One statement: it is executed, or it fails and changes nothing.
  abbrev statement : (Session S → Option (Session S)) → Session S → Outcome S
  statement f s =
      let next = record s { faults = tail_of s.faults } in
      if fails s.faults
      then failed next
      else elim (f next) [ none ↦ failed next | some t ↦ succeeded t ]

  abbrev query : Session S → Outcome S
  query = statement some

  abbrev execute : String → Session S → Option (Session S)
  execute sql s = elim (exec sql s.tables) [ none ↦ none | some t ↦ some (record s { tables = t }) ]

  -- Rollback, to the session before the transaction.
  abbrev or_rollback : Session S → Outcome S → Outcome S
  or_rollback before (succeeded s) = succeeded s
  or_rollback before (failed s) = failed (record s { rows = before.rows; tables = before.tables })

  -- The transaction that runs a migration.
  unfoldable pub migrate : ℕ → String → Session S → Outcome S
  migrate v sql s = or_rollback s (
      query s
      >>= statement (λ t. some (record t { rows = mark_dirty v t.rows }))
      >>= statement (execute sql)
      >>= statement (λ t. some (record t { rows = mark_clean v t.rows }))
      >>= query)

  abbrev read_and_migrate : Migration → Option String → Session S → Outcome S
  read_and_migrate m none s = failed s
  read_and_migrate m (some sql) s = migrate m.version sql s

  -- What the two columns of the query decide: dirty, applied, or neither.
  abbrev decide : Migration → Option Bool → Session S → Outcome S
  decide m none s = read_and_migrate m m.content s
  decide m (some dirty) s = if dirty then failed s else succeeded s

  unfoldable pub apply : Migration → Session S → Outcome S
  apply m s = query s >>= λ t. decide m (dirty_flag m.version t.rows) t

  unfoldable pub apply_all : List Migration → Session S → Outcome S
  apply_all [] s = succeeded s
  apply_all (m ∷ ms) s = apply m s >>= apply_all ms

  -- RunMigrations, on a directory that can be read.
  unfoldable pub run_migrations : List Entry → Session S → Outcome S
  run_migrations es s = query s >>= apply_all (sort_files (migration_files es))
