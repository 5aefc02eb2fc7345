-- ===== src/Kafka/Laws.antt =====
-- What the audit log holds after the messages of the topics.
use text.Mathlib.Text.{◌==◌ as str_eq}
use mathlib.Core.List.{append_assoc, append-nil}
use multi_trade_platform.Base.{
  ℕ, suc, ◌≡◌, refl, sym, ap, ◌∙◌, arith, false, List, [], ◌∷◌, ◌++◌, Option, none, some, ok,
  if◌then◌else◌, Bool-cases, inl, inr,
}
use multi_trade_platform.Store.{World, Db, AuditLog, M, pure, statement, ◌>>=◌, ◌>>◌}
use multi_trade_platform.Audit.{NewEntry, entry, create, insert_entry, has_no_user, create_cases}
use multi_trade_platform.Kafka.{
  Message, unreadable, wrapped, created_entry, cancelled_entry, buyer_entry, seller_entry,
  wallet_entry, write_entry, write_some, consume_audit, consume_all,
}

abbrev from_some : {A : Type 0} → Option A → (A → List NewEntry) → List NewEntry
from_some none f = []
from_some (some a) f = f a

-- What a message asks for: one entry, two for a trade, none if it cannot be read or is of another type.
abbrev pub entries : Message → List NewEntry
entries unreadable = []
entries (wrapped type raw) =
    if str_eq type "order.created"
    then from_some raw.order (λ p. created_entry p ∷ [])
    else if str_eq type "order.cancelled"
    then from_some raw.order (λ p. cancelled_entry p ∷ [])
    else if str_eq type "trade.executed"
    then from_some raw.trade (λ p. buyer_entry p ∷ seller_entry p ∷ [])
    else if str_eq type "wallet.updated"
    then from_some raw.wallet (λ p. wallet_entry p ∷ [])
    else []

abbrev pub all_entries : List Message → List NewEntry
all_entries [] = []
all_entries (m ∷ ms) = entries m ++ all_entries ms

-- The rows hold some of the entries, each at most once and in their order.
pub data Kept : List NewEntry → List AuditLog → Type 0 where
  kept_none : Kept [] []
  kept_row :
      {ns : List NewEntry} {ls : List AuditLog}
      → (n : NewEntry) (id : ℕ) → Kept ns ls
      → Kept (n ∷ ns) (entry id n ∷ ls)
  kept_lost :
      {ns : List NewEntry} {ls : List AuditLog} → (n : NewEntry) → Kept ns ls → Kept (n ∷ ns) ls

-- Writing entries one after another, which the messages come to.
abbrev write_all : List NewEntry → M (Unit {0})
write_all [] = pure tt
write_all (n ∷ ns) = write_entry n >> write_all ns

write_some-entries :
    {A : Type 0} (o : Option A) (f : A → M (Unit {0})) (g : A → List NewEntry) (w : World)
    → ((a : A) → f a w ≡ write_all (g a) w)
    → write_some o f w ≡ write_all (from_some o g) w
unfolding write_some
write_some-entries none f g w each = refl
write_some-entries (some a) f g w each = each a

consume_audit-entries : (m : Message) (w : World) → consume_audit m w ≡ write_all (entries m) w
unfolding consume_audit write_entry ◌>>◌ ◌>>=◌
consume_audit-entries unreadable w = refl
consume_audit-entries (wrapped type raw) w =
    let created =
      write_some-entries raw.order (λ p. write_entry (created_entry p)) (λ p. created_entry p ∷ [])
        w (λ p. refl) in
    let cancelled =
      write_some-entries raw.order (λ p. write_entry (cancelled_entry p))
        (λ p. cancelled_entry p ∷ []) w (λ p. refl) in
    let traded =
      write_some-entries raw.trade
        (λ p. write_entry (buyer_entry p) >> write_entry (seller_entry p))
        (λ p. buyer_entry p ∷ seller_entry p ∷ []) w (λ p. refl) in
    let changed =
      write_some-entries raw.wallet (λ p. write_entry (wallet_entry p)) (λ p. wallet_entry p ∷ []) w
        (λ p. refl) in
    elim (Bool-cases (str_eq type "order.created")) [
      | inl a ↦ rw a created
      | inr a ↦ elim (Bool-cases (str_eq type "order.cancelled")) [
        | inl b ↦ rw (a, b) cancelled
        | inr b ↦ elim (Bool-cases (str_eq type "trade.executed")) [
          | inl c ↦ rw (a, b, c) traded
          | inr c ↦ elim (Bool-cases (str_eq type "wallet.updated")) [
            | inl d ↦ rw (a, b, c, d) changed
            | inr d ↦ rw (a, b, c, d) refl
          ]
        ]
      ]
    ]

write_all-append :
    (ms ns : List NewEntry) (w : World) → write_all (ms ++ ns) w ≡ (write_all ms >> write_all ns) w
unfolding write_entry ◌>>◌ ◌>>=◌
write_all-append [] ns w = refl
write_all-append (m ∷ ms) ns w = write_all-append ms ns (create m w).1

write_all-done : (ns : List NewEntry) (w : World) → (write_all ns w).0 ≡ ok tt
unfolding write_entry ◌>>◌ ◌>>=◌
write_all-done [] w = refl
write_all-done (n ∷ ns) w = write_all-done ns (create n w).1

after_done : (m k : M (Unit {0})) (w : World) → (m w).0 ≡ ok tt → (m >> k) w ≡ k (m w).1
unfolding ◌>>◌ ◌>>=◌
after_done m k w done = ground arith

consume_all-entries :
    (ms : List Message) (w : World) → consume_all ms w ≡ write_all (all_entries ms) w
unfolding consume_all
consume_all-entries [] w = refl
consume_all-entries (m ∷ ms) w =
    let first = consume_audit-entries m w in
    let done = write_all-done (entries m) w in
    let rest = consume_all-entries ms (write_all (entries m) w).1 in
    let joined = write_all-append (entries m) (all_entries ms) w in
    after_done (consume_audit m) (consume_all ms) w (ap (λ r. r.0) first ∙ done)
    ∙ ap (λ r. consume_all ms r.1) first
    ∙ rest
    ∙ sym (after_done (write_all (entries m)) (write_all (all_entries ms)) w done)
    ∙ sym joined

abbrev pub with_logs : List AuditLog → Db → Db
with_logs ls d = record d { audit_logs = d.audit_logs ++ ls }

write_all-Kept :
    (ns : List NewEntry) (w : World)
    → (ls : List AuditLog) × Kept ns ls × ((write_all ns w).1.db ≡ with_logs ls w.db)
unfolding write_entry ◌>>◌ ◌>>=◌
write_all-Kept [] w = (
  [],
  kept_none,
  ap (λ (l : List AuditLog). record w.db { audit_logs = l }) (sym (append-nil w.db.audit_logs)),
)
write_all-Kept (n ∷ ns) w =
    let (ls, kept, rest) = write_all-Kept ns (create n w).1 in
    elim (create_cases n w) [
      | inl same ↦ (ls, kept_lost n kept, rest ∙ ap (with_logs ls) same)
      | inr (id, new) ↦ (
        entry id n ∷ ls,
        kept_row n id kept,
        rest
            ∙ ap (with_logs ls) new
            ∙ ap (λ (l : List AuditLog). record w.db { audit_logs = l })
                (append_assoc w.db.audit_logs (entry id n ∷ []) ls),
      )
    ]

-- Whatever the messages are and whichever statements the database fails to execute, the consumer goes
-- on: it changes no table but the audit log, behind which it puts rows for the entries that the
-- messages ask for, each at most once and in their order.
pub consume_all-Kept :
    (ms : List Message) (w : World)
    → ((consume_all ms w).0 ≡ ok tt)
      × (ls : List AuditLog) × Kept (all_entries ms) ls
      × ((consume_all ms w).1.db ≡ with_logs ls w.db)
consume_all-Kept ms w =
    let same = consume_all-entries ms w in
    let (ls, kept, tables) = write_all-Kept (all_entries ms) w in
    (
      ap (λ r. r.0) same ∙ write_all-done (all_entries ms) w,
      ls,
      kept,
      ap (λ r. r.1.db) same ∙ tables,
    )

abbrev pub numbered : ℕ → List NewEntry → List AuditLog
numbered id [] = []
numbered id (n ∷ ns) = entry id n ∷ numbered (suc id) ns

-- The users that the entries name have rows.
abbrev pub AllKnown : List NewEntry → Db → Type 0
AllKnown [] d = Unit {0}
AllKnown (n ∷ ns) d = (has_no_user n.user_id d.users ≡ false) × AllKnown ns d

create-known :
    (n : NewEntry) (w : World)
    → w.faults ≡ []
    → has_no_user n.user_id w.db.users ≡ false
    → (create n w).1
      ≡ record w { db = with_logs (entry w.serial n ∷ []) w.db; serial = suc w.serial }
unfolding create insert_entry statement ◌>>=◌ ◌>>◌
create-known n w up known = ground arith

AllKnown-users :
    (ns : List NewEntry) (d d' : Db) → d'.users ≡ d.users → AllKnown ns d → AllKnown ns d'
AllKnown-users [] d d' same known = tt
AllKnown-users (n ∷ ns) d d' same known = (rw same known.0, AllKnown-users ns d d' same known.1)

write_all-numbered :
    (ns : List NewEntry) (w : World)
    → w.faults ≡ []
    → AllKnown ns w.db
    → (write_all ns w).1.db ≡ with_logs (numbered w.serial ns) w.db
unfolding write_entry ◌>>◌ ◌>>=◌
write_all-numbered [] w up known =
    ap (λ (l : List AuditLog). record w.db { audit_logs = l }) (sym (append-nil w.db.audit_logs))
write_all-numbered (n ∷ ns) w up known =
    let w₁ : World = record w {
      db = with_logs (entry w.serial n ∷ []) w.db;
      serial = suc w.serial;
    } in
    ap (λ v. (write_all ns v).1.db) (create-known n w up known.0)
    ∙ write_all-numbered ns w₁ up (AllKnown-users ns w.db w₁.db refl known.1)
    ∙ ap (λ (l : List AuditLog). record w.db { audit_logs = l })
        (append_assoc w.db.audit_logs (entry w.serial n ∷ []) (numbered (suc w.serial) ns))

-- If no statement fails and the users that the messages name have rows, every entry that the messages ask for is in the log,
-- in their order, and nothing else is new.
pub consume_all_complete :
    (ms : List Message) (w : World)
    → w.faults ≡ []
    → AllKnown (all_entries ms) w.db
    → (consume_all ms w).1.db ≡ with_logs (numbered w.serial (all_entries ms)) w.db
consume_all_complete ms w up known =
    ap (λ r. r.1.db) (consume_all-entries ms w) ∙ write_all-numbered (all_entries ms) w up known
