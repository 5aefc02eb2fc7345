-- ===== src/Migrations/Laws.antt =====
-- A migration is applied once: what has been applied is passed over.
use Prim.Native.String.{String}
use multi_trade_platform.Base.{
  ℕ, ◌≡◌, refl, arith, Bool, true, false, List, [], ◌∷◌, Option, some, ◌==◌, Bool-cases,
  Option-cases, inl, inr, if◌then◌else◌, ◌⊎◌,
}
use multi_trade_platform.Migrations.{
  Entry, Migration, Rows, Session, Outcome, succeeded, failed, ◌>>=◌, dirty_flag, mark_dirty,
  mark_clean, tail_of, migrate, apply, apply_all, run_migrations, sort_files, migration_files,
}

dirty_flag-mark_dirty :
    (u v : ℕ) (rs : Rows)
    → dirty_flag u (mark_dirty v rs) ≡ (if v == u then some true else dirty_flag u rs)
dirty_flag-mark_dirty u v [] = ground arith
dirty_flag-mark_dirty u v ((w, d) ∷ rs) = ground (arith, dirty_flag-mark_dirty u v rs)

dirty_flag-mark_clean :
    (u v : ℕ) (rs : Rows) (d : Bool)
    → dirty_flag u rs ≡ some d
    → dirty_flag u (mark_clean v rs) ≡ some (if v == u then false else d)
dirty_flag-mark_clean u v [] d h = absurd (ground arith)
dirty_flag-mark_clean u v ((w, e) ∷ rs) d h = ground (arith, dirty_flag-mark_clean u v rs d)

bind-ok :
    {S : Type 0} (o : Outcome S) (f : Session S → Outcome S) (s' : Session S)
    → (o >>= f) ≡ succeeded s'
    → (t : Session S) × (o ≡ succeeded t) × (f t ≡ succeeded s')
bind-ok (succeeded t) f s' e = (t, refl, e)
bind-ok (failed t) f s' e = absurd (ground arith)

module _ {S : Type 0} (exec : String → S → Option S) where
  -- What a migration that succeeds does to the rows.
  migrate-rows :
      (v : ℕ) (sql : String) (s s' : Session S)
      → migrate exec v sql s ≡ succeeded s'
      → s'.rows ≡ mark_clean v (mark_dirty v s.rows)
  unfolding migrate
  migrate-rows v sql s s' e = ground arith

  -- A migration that succeeds was clean before, or its script was run.
  apply-cases :
      (m : Migration) (s s' : Session S)
      → apply exec m s ≡ succeeded s'
      → ((dirty_flag m.version s.rows ≡ some false) × (s'.rows ≡ s.rows))
        ⊎ (s'.rows ≡ mark_clean m.version (mark_dirty m.version s.rows))
  unfolding apply
  apply-cases m s s' e = elim (Option-cases (dirty_flag m.version s.rows)) [
    | inl absent ↦ elim (Option-cases m.content) [
      | inl unread ↦ absurd (ground arith)
      | inr (sql, content) ↦
          let t : Session S = record s { faults = tail_of s.faults } in
          let ran : migrate exec m.version sql t ≡ succeeded s' = ground arith in
          inr (migrate-rows m.version sql t s' ran)
    ]
    | inr (d, there) ↦ elim (Bool-cases d) [
      | inl dirty ↦ absurd (ground arith)
      | inr clean ↦ inl (ground arith, ground arith)
    ]
  ]

  clean-marked :
      (u v : ℕ) (rs : Rows)
      → ((u ≡ v) ⊎ (dirty_flag u rs ≡ some false))
      → dirty_flag u (mark_clean v (mark_dirty v rs)) ≡ some false
  clean-marked u v rs h =
      let first = dirty_flag-mark_dirty u v rs in
      elim (Bool-cases (v == u)) [
        | inl same ↦
            let second = dirty_flag-mark_clean u v (mark_dirty v rs) true (ground arith) in
            ground arith
        | inr other ↦ elim h [
          | inl e ↦ absurd (ground arith)
          | inr clean ↦
              let second = dirty_flag-mark_clean u v (mark_dirty v rs) false (ground arith) in
              ground arith
        ]
      ]

  -- A version that is clean stays clean, and the version of a migration that succeeds is clean.
  apply_cleans :
      (m : Migration) (s s' : Session S) (u : ℕ)
      → apply exec m s ≡ succeeded s'
      → ((u ≡ m.version) ⊎ (dirty_flag u s.rows ≡ some false))
      → dirty_flag u s'.rows ≡ some false
  apply_cleans m s s' u e h = elim (apply-cases m s s' e) [
    | inl (clean, same) ↦ elim h [ inl eq ↦ rw (same, eq) clean | inr there ↦ rw same there ]
    | inr ran ↦ rw ran (clean-marked u m.version s.rows h)
  ]

  -- A version that is clean is passed over.
  pub apply_clean :
      (m : Migration) (s : Session S)
      → s.faults ≡ []
      → dirty_flag m.version s.rows ≡ some false
      → apply exec m s ≡ succeeded s
  unfolding apply
  apply_clean m s quiet clean = ground arith

  -- All versions of the list are clean.
  abbrev AllClean : List Migration → Rows → Type 0
  AllClean [] rs = Unit
  AllClean (m ∷ ms) rs = (dirty_flag m.version rs ≡ some false) × AllClean ms rs

  apply_all-keeps :
      (ms : List Migration) (s s' : Session S) (u : ℕ)
      → apply_all exec ms s ≡ succeeded s'
      → dirty_flag u s.rows ≡ some false
      → dirty_flag u s'.rows ≡ some false
  unfolding apply_all
  apply_all-keeps [] s s' u e clean = ground arith
  apply_all-keeps (m ∷ ms) s s' u e clean =
      let (t, first, rest) = bind-ok (apply exec m s) (apply_all exec ms) s' e in
      apply_all-keeps ms t s' u rest (apply_cleans m s t u first (inr clean))

  apply_all-AllClean :
      (ms : List Migration) (s s' : Session S)
      → apply_all exec ms s ≡ succeeded s'
      → AllClean ms s'.rows
  unfolding apply_all
  apply_all-AllClean [] s s' e = tt
  apply_all-AllClean (m ∷ ms) s s' e =
      let (t, first, rest) = bind-ok (apply exec m s) (apply_all exec ms) s' e in
      (
        apply_all-keeps ms t s' m.version rest (apply_cleans m s t m.version first (inl refl)),
        apply_all-AllClean ms t s' rest,
      )

  apply_all-again :
      (ms : List Migration) (s : Session S)
      → s.faults ≡ []
      → AllClean ms s.rows
      → apply_all exec ms s ≡ succeeded s
  unfolding apply_all
  apply_all-again [] s quiet clean = refl
  apply_all-again (m ∷ ms) s quiet clean =
      rw (apply_clean m s quiet clean.0) (apply_all-again ms s quiet clean.1)

  -- After a run that has succeeded, another run on the same directory succeeds and changes nothing,
  -- as long as no statement of it fails.
  pub run_migrations_again :
      (es : List Entry) (s s' : Session S)
      → run_migrations exec es s ≡ succeeded s'
      → s'.faults ≡ []
      → run_migrations exec es s' ≡ succeeded s'
  unfolding run_migrations
  run_migrations_again es s s' e quiet =
      let ms = sort_files (migration_files es) in
      let (t, first, rest) = bind-ok _ (apply_all exec ms) s' e in
      let again = apply_all-again ms s' quiet (apply_all-AllClean ms t s' rest) in ground arith

  -- After a migration has succeeded, another file with the same version is passed over: its script is
  -- not run, and nothing is reported.
  pub apply_same_version :
      (m n : Migration) (s s' : Session S)
      → n.version ≡ m.version
      → apply exec m s ≡ succeeded s'
      → s'.faults ≡ []
      → apply exec n s' ≡ succeeded s'
  apply_same_version m n s s' same e quiet =
      apply_clean n s' quiet (apply_cleans m s s' n.version e (inl same))
