-- ===== src/Db/Writing.antt =====
-- A write to the memtable of a database in order, whatever the log and the flush do.
use mathlib.Core.Path.{subst}
use go_durable_engine.Prelude.{
  ℕ, ◌+◌, ◌^◌, ◌≤◌, ◌<◌, ◌≡◌, refl, sym, ap, ◌∙◌, inl, inr, Bool, true, false, Bool-cases, Option,
  none, some, List, [], ◌∷◌, arith, length, leb, if◌then◌else◌, Result, ok, err, Bytes, IsUint64,
  All,
}
use go_durable_engine.Bytes.{content, equal}
use go_durable_engine.Bytes.Order.{equal_iff, equal-compare}
use go_durable_engine.Wal.Log.{Log}
use go_durable_engine.Memtable.{Entry, set_entry, snapshot}
use go_durable_engine.Memtable.Contents.{
  key_of, IsAscending, newer, updated, insert_entry, find_entry, insert_entry-read,
  insert_entry-other, Compared, compare-cases, find_entry-hit, find_entry-skip,
}
use go_durable_engine.Memtable.Read.{snapshot_lem}
use go_durable_engine.Memtable.Operations.{set_entry-insert_entry}
use go_durable_engine.Sstable.Blocks.{room_for}
use go_durable_engine.Db.{Error, not_found, Db, Env}
use go_durable_engine.Db.Read.{db_get, table_answer}
use go_durable_engine.Db.Serving.{NoneNewer, table_entries, served, best_in}
use go_durable_engine.Db.Sound.{IsSound, NoneNewer-le, db_get-view, first_of, view}
use go_durable_engine.Db.Kept.{FitsTable}
use mathlib.Core.List.{reverse}

-- What holds of all entries, of a new one, and of a replaced one, holds of all after a write.
pub All-insert_entry :
    (P : Entry → Type 0) (e : Entry) (es : List Entry)
    → P e
    → ((x : Entry) → P x → P (newer x e))
    → All P es
    → All P (insert_entry e es)
unfolding insert_entry
All-insert_entry P e [] here over all = (here, tt)
All-insert_entry P e (x ∷ xs) here over all = elim (compare-cases (key_of x) (key_of e)) [
  | Compared.before o ↦ rw (o, insert_entry) (all.0, All-insert_entry P e xs here over all.1)
  | Compared.same o ↦ rw (o, insert_entry) (over x all.0, all.1)
  | Compared.after o ↦ rw (o, insert_entry) (here, (all.0, all.1))
]

abbrev or_entry : Entry → Option Entry → Entry
or_entry d none = d
or_entry d (some x) = x

entry_injective : {a b : Entry} → some a ≡ some b → a ≡ b
entry_injective {a} q = ap (or_entry a) q

pub find_entry-All :
    (P : Entry → Type 0) (key : Bytes) (es : List Entry) (x : Entry)
    → All P es
    → find_entry key es ≡ some x
    → P x
unfolding find_entry
find_entry-All P key [] x all q = absurd (none-some q)
  where
    none-some : {a : Entry} → none ≡ some a → ⊥
    none-some q' = cc
find_entry-All P key (e ∷ es) x all q = elim (compare-cases (key_of e) key) [
  | Compared.same o ↦ subst P (entry_injective (sym (find_entry-hit key e es o) ∙ q)) all.0
  | Compared.before o ↦
      find_entry-All P key es x all.1 (sym (find_entry-skip key e es (λ r. cc)) ∙ q)
  | Compared.after o ↦
      find_entry-All P key es x all.1 (sym (find_entry-skip key e es (λ r. cc)) ∙ q)
]

-- Where the new entry is the newest.
updated-newest :
    (e : Entry) (o : Option Entry)
    → ((x : Entry) → o ≡ some x → x.seq ≤ e.seq)
    → (n : Entry) × (updated e o ≡ some n)
      × (n.seq ≡ e.seq)
      × (n.value ≡ e.value)
      × (n.deleted ≡ e.deleted)
updated-newest e none h = (e, refl, refl, refl, refl)
updated-newest e (some x) h =
    let t : leb x.seq e.seq ≡ true = ground (arith, h x refl) in
    (record x { value = e.value; seq = e.seq; deleted = e.deleted }, rw t refl, refl, refl, refl)

-- What a key holds behind the write: the new entry is read back, and other keys are as before.
pub find_entry-inserted :
    (e : Entry) (es : List Entry) (key : Bytes)
    → IsAscending es
    → All (λ x. x.seq ≤ e.seq) es
    → (equal (key_of e) key ≡ true
        → (n : Entry) × (find_entry key (insert_entry e es) ≡ some n)
          × (n.seq ≡ e.seq)
          × (n.value ≡ e.value)
          × (n.deleted ≡ e.deleted))
      × (equal (key_of e) key ≡ false → find_entry key (insert_entry e es) ≡ find_entry key es)
find_entry-inserted e es key asc seqs = (
  λ t.
      (let k = (equal_iff (key_of e) key).0 t in
        let u =
          updated-newest e (find_entry key es)
            (λ x q. find_entry-All (λ x'. x'.seq ≤ e.seq) key es x seqs q) in
        let read : find_entry key (insert_entry e es) ≡ updated e (find_entry key es) =
          subst (λ (b : Bytes). find_entry b (insert_entry e es) ≡ updated e (find_entry b es)) k
            (insert_entry-read e es asc) in
        (u.0, read ∙ u.1, u.2, u.3, u.4)),
  λ f. insert_entry-other key e es (λ q. (let t = (equal-compare (key_of e) key).1 q in cc)),
)

-- A log with a number behind all others, and the memtable with one more entry of that number.
abbrev pub inserted : Db → Log → (ℕ → Bool) → Entry → Db
inserted db l coins e = record db {
  wal = l;
  mem = record db.mem { sl = set_entry db.mem.sl coins e };
}

newer-keyed :
    (e x : Entry) → x.key ≡ some (content x.key) → (newer x e).key ≡ some (content (newer x e).key)
newer-keyed e x h = elim (Bool-cases (leb x.seq e.seq)) [ inl t ↦ rw t h | inr f ↦ rw f h ]

newer-seq : (e x : Entry) (n : ℕ) → e.seq ≤ n → x.seq ≤ n → (newer x e).seq ≤ n
newer-seq e x n h g = elim (Bool-cases (leb x.seq e.seq)) [ inl t ↦ rw t h | inr f ↦ rw f g ]

All-seq_le : (n m : ℕ) (es : List Entry) → n ≤ m → All (λ e. e.seq ≤ n) es → All (λ e. e.seq ≤ m) es
All-seq_le n m [] le all = tt
All-seq_le n m (e ∷ es) le all = (omega (arith, all.0), All-seq_le n m es le all.1)

IsSound-IsAscending :
    (search : ℕ → (ℕ → Bool) → ℕ) (db : Db) (s : IsSound search db) → IsAscending s.es
IsSound-IsAscending search db s = subst IsAscending s.rep.contents s.rep.ok.ascending

-- The key that was written has a newer entry than the tables, and the others are as they were.
inserted-newest :
    (search : ℕ → (ℕ → Bool) → ℕ) (db : Db) (s : IsSound search db) (e : Entry)
    → db.wal.next_seq ≤ e.seq
    → (key : Bytes) (x : Entry) → find_entry key (insert_entry e s.es) ≡ some x
    → NoneNewer key x.seq s.stores
inserted-newest search db s e behind key x q =
    let asc = IsSound-IsAscending search db s in
    let r =
      find_entry-inserted e s.es key asc (All-seq_le db.wal.next_seq e.seq s.es behind s.seqs) in
    elim (Bool-cases (equal (key_of e) key)) [
      | inl t ↦
          let n = r.0 t in
          let same : n.0 ≡ x = entry_injective (sym n.1 ∙ q) in
          NoneNewer-le key db.wal.next_seq x.seq s.stores
            (omega (arith, n.2, ap (λ (y : Entry). y.seq) same)) (s.old key)
      | inr f ↦ s.newest key x (sym (r.1 f) ∙ q)
    ]

-- What a read gives for an entry.
abbrev pub answer_of : Entry → Result Error Bytes
answer_of e = if e.deleted then err not_found else ok e.value

-- What is behind an insertion: the database is in order, and a read of the key gives the new entry.
pub record IsInserted (env : Env) (db db' : Db) (e : Entry) : Type 0 where
  pub sound : IsSound env.search db'
  pub reads :
      (key : Bytes)
      → db_get env db' key ≡ (if equal (key_of e) key then answer_of e else db_get env db key)

view-inserted :
    (search : ℕ → (ℕ → Bool) → ℕ) (db : Db) (s : IsSound search db) (e : Entry) (key : Bytes)
    → db.wal.next_seq ≤ e.seq
    → table_answer (ok (view key (insert_entry e s.es) s.stores))
      ≡ (if equal (key_of e) key then answer_of e else table_answer (ok (view key s.es s.stores)))
view-inserted search db s e key behind =
    let asc = IsSound-IsAscending search db s in
    let r =
      find_entry-inserted e s.es key asc (All-seq_le db.wal.next_seq e.seq s.es behind s.seqs) in
    elim (Bool-cases (equal (key_of e) key)) [
      | inl t ↦
          let n = r.0 t in
          let found : table_answer (ok (view key (insert_entry e s.es) s.stores)) ≡ answer_of n.0 =
            ap
              (λ (o : Option Entry).
                table_answer (ok (first_of (served o) (best_in key (reverse s.stores) none))))
              n.1 in
          rw t (
            found
            ∙ ap (λ (d : Bool). if d then err not_found else ok n.0.value) n.4
            ∙ ap (λ (v : Bytes). if e.deleted then err not_found else ok v) n.3)
      | inr f ↦ rw f (
          ap
            (λ (o : Option Entry).
              table_answer (ok (first_of (served o) (best_in key (reverse s.stores) none))))
            (r.1 f))
    ]

pub inserted-IsInserted :
    (env : Env) (db : Db) (l : Log) (coins : ℕ → Bool) (e : Entry)
    → IsSound env.search db
    → db.is_closed ≡ false
    → e.key ≡ some (content e.key)
    → db.wal.next_seq ≤ e.seq
    → e.seq ≤ l.next_seq
    → IsUint64 l.next_seq
    → IsInserted env db (inserted db l coins e) e
inserted-IsInserted env db l coins e s is_open keyed behind up limit =
    let s' : IsSound env.search (inserted db l coins e) = record {
      es = insert_entry e s.es;
      rep = set_entry-insert_entry db.mem.sl coins e s.es s.rep;
      keyed =
          All-insert_entry (λ x. x.key ≡ some (content x.key)) e s.es keyed (newer-keyed e) s.keyed;
      seqs =
          All-insert_entry (λ x. x.seq ≤ l.next_seq) e s.es up
            (λ x h. newer-seq e x l.next_seq up h)
            (All-seq_le db.wal.next_seq l.next_seq s.es (omega arith) s.seqs);
      stores = s.stores;
      serve = s.serve;
      old = λ key. NoneNewer-le key db.wal.next_seq l.next_seq s.stores (omega arith) (s.old key);
      newest = inserted-newest env.search db s e behind;
      limit = limit;
    } in
    record {
      sound = s';
      reads = λ key.
          db_get-view env (inserted db l coins e) s' key is_open
          ∙ view-inserted env.search db s e key behind
          ∙ ap (λ (r : Result Error Bytes). if equal (key_of e) key then answer_of e else r)
              (sym (db_get-view env db s key is_open));
    }

-- The room that the memtable's entries need in a table.
room_for-insert_entry :
    (e : Entry) (es : List Entry)
    → room_for (table_entries (insert_entry e es))
      ≤ room_for (table_entries es) + (41 + length (key_of e) + length e.value)
unfolding insert_entry
room_for-insert_entry e [] = omega arith
room_for-insert_entry e (x ∷ xs) = elim (compare-cases (key_of x) (key_of e)) [
  | Compared.before o ↦ rw (o, insert_entry) (omega (arith, room_for-insert_entry e xs))
  | Compared.same o ↦
      rw (o, insert_entry)
        (elim (Bool-cases (leb x.seq e.seq)) [
          | inl t ↦ rw t (omega arith)
          | inr f ↦ rw f (omega arith)
        ])
  | Compared.after o ↦ rw (o, insert_entry) (omega arith)
]

-- The memtable behind an insertion fits a table where the one in front leaves room for the entry.
pub inserted-FitsTable :
    (search : ℕ → (ℕ → Bool) → ℕ) (db : Db) (l : Log) (coins : ℕ → Bool) (e : Entry)
    → IsSound search db
    → room_for (table_entries (snapshot db.mem.sl)) + (41 + length (key_of e) + length e.value)
      < 2 ^ 32
    → FitsTable (snapshot (inserted db l coins e).mem.sl)
inserted-FitsTable search db l coins e s room =
    let now =
      snapshot_lem (set_entry db.mem.sl coins e) (insert_entry e s.es)
        (set_entry-insert_entry db.mem.sl coins e s.es s.rep) in
    omega (
      arith,
      room,
      ap (λ (t : List Entry). room_for (table_entries t)) now,
      ap (λ (t : List Entry). room_for (table_entries t)) (snapshot_lem db.mem.sl s.es s.rep),
      room_for-insert_entry e s.es,
    )
