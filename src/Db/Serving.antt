-- ===== src/Db/Serving.antt =====
-- A scan of tables, each of which answers as a list of entries.
use mathlib.Core.Path.{subst}
use mathlib.Core.List.{reverse, reverse-cons}
use Prim.Native.Nat.{Ordering}
use go_durable_engine.Prelude.{
  ℕ, ◌≤◌, ◌≡◌, ◌≢◌, refl, sym, ap, ◌∙◌, inl, inr, Bool, false, Bool-cases, Option, none, some, List,
  [], ◌∷◌, ◌++◌, arith, ltb, map, ok, Bytes, All,
}
use go_durable_engine.Bytes.{content, compare, equal}
use go_durable_engine.Bytes.Order.{Before, equal-compare}
use go_durable_engine.Memtable
use go_durable_engine.Memtable.Contents.{
  find_entry, find_entry-hit, find_entry-skip, IsAscending, key_of,
}
use go_durable_engine.Sstable
use go_durable_engine.Sstable.Reader
use go_durable_engine.Sstable.Blocks.{stored}
use go_durable_engine.Sstable.Seeking.{
  key_in, AreAscending, lookup_in, lookup_in-hit, lookup_in-skip,
}
use go_durable_engine.Db.{Table}
use go_durable_engine.Db.Write.{table_entry}
use go_durable_engine.Db.Read.{table_get, best_of, scan_tables}

-- The table is open, and a lookup in it is one in these entries.
abbrev pub Serves : (ℕ → (ℕ → Bool) → ℕ) → Table → List Sstable.Entry → Type 0
Serves search t es =
    (t.is_closed ≡ false) × ((key : Bytes) → Reader.get search t.reader key ≡ ok (lookup_in key es))

abbrev pub AllServe : (ℕ → (ℕ → Bool) → ℕ) → List Table → List (List Sstable.Entry) → Type 0
AllServe search [] [] = Unit {0}
AllServe search [] (s ∷ ss) = ⊥
AllServe search (t ∷ ts) [] = ⊥
AllServe search (t ∷ ts) (s ∷ ss) = Serves search t s × AllServe search ts ss

pub AllServe-snoc :
    (search : ℕ → (ℕ → Bool) → ℕ) (ts : List Table) (ss : List (List Sstable.Entry)) (t : Table)
    (s : List Sstable.Entry)
    → AllServe search ts ss
    → Serves search t s
    → AllServe search (ts ++ t ∷ []) (ss ++ s ∷ [])
AllServe-snoc search [] [] t s all one = (one, tt)
AllServe-snoc search [] (q ∷ ss) t s all one = absurd all
AllServe-snoc search (p ∷ ts) [] t s all one = absurd all
AllServe-snoc search (p ∷ ts) (q ∷ ss) t s all one =
    (all.0, AllServe-snoc search ts ss t s all.1 one)

pub AllServe-reverse :
    (search : ℕ → (ℕ → Bool) → ℕ) (ts : List Table) (ss : List (List Sstable.Entry))
    → AllServe search ts ss
    → AllServe search (reverse ts) (reverse ss)
AllServe-reverse search [] [] all = tt
AllServe-reverse search [] (s ∷ ss) all = absurd all
AllServe-reverse search (t ∷ ts) [] all = absurd all
AllServe-reverse search (t ∷ ts) (s ∷ ss) all =
    subst (λ (x : List Table). AllServe search x (reverse (s ∷ ss))) (sym (reverse-cons t ts))
      (subst (AllServe search (reverse ts ++ t ∷ [])) (sym (reverse-cons s ss)) (
        AllServe-snoc search (reverse ts) (reverse ss) t s (AllServe-reverse search ts ss all.1)
          all.0))

table_get-Serves :
    (search : ℕ → (ℕ → Bool) → ℕ) (t : Table) (s : List Sstable.Entry) (key : Bytes)
    → Serves search t s
    → table_get search t key ≡ ok (lookup_in key s)
unfolding table_get
table_get-Serves search t s key h = rw (h.0, h.1 key) refl

-- What the scan of the tables comes to.
unfoldable pub best_in :
    Bytes → List (List Sstable.Entry) → Option Sstable.Entry → Option Sstable.Entry
best_in key [] best = best
best_in key (s ∷ ss) best = best_in key ss (best_of best (lookup_in key s))

pub scan_tables-best_in :
    (search : ℕ → (ℕ → Bool) → ℕ) (key : Bytes) (ts : List Table) (ss : List (List Sstable.Entry))
    (best : Option Sstable.Entry)
    → AllServe search ts ss
    → scan_tables search key ts best ≡ ok (best_in key ss best)
unfolding scan_tables best_in
scan_tables-best_in search key [] [] best all = refl
scan_tables-best_in search key [] (s ∷ ss) best all = absurd all
scan_tables-best_in search key (t ∷ ts) [] best all = absurd all
scan_tables-best_in search key (t ∷ ts) (s ∷ ss) best all =
    let e = table_get-Serves search t s key all.0 in
    rw (e, scan_tables)
      (scan_tables-best_in search key ts ss (best_of best (lookup_in key s)) all.1)

-- No list has a newer entry of the key than the sequence number.
abbrev pub NoneNewer : Bytes → ℕ → List (List Sstable.Entry) → Type 0
NoneNewer key seq ss = All (λ s. (f : Sstable.Entry) → lookup_in key s ≡ some f → f.seq ≤ seq) ss

best_of-stays :
    (best : Sstable.Entry) (o : Option Sstable.Entry)
    → ((f : Sstable.Entry) → o ≡ some f → f.seq ≤ best.seq)
    → best_of (some best) o ≡ some best
best_of-stays best none h = refl
best_of-stays best (some f) h =
    (let t : ltb best.seq f.seq ≡ false = ground (arith, h f refl) in rw t refl)

pub best_in-stays :
    (key : Bytes) (ss : List (List Sstable.Entry)) (best : Sstable.Entry)
    → NoneNewer key best.seq ss
    → best_in key ss (some best) ≡ some best
unfolding best_in
best_in-stays key [] best h = refl
best_in-stays key (s ∷ ss) best h =
    ap (best_in key ss) (best_of-stays best (lookup_in key s) h.0) ∙ best_in-stays key ss best h.1

-- The entries of a snapshot, as the table that is written from it answers.
abbrev pub table_entries : List Memtable.Entry → List Sstable.Entry
table_entries = map table_entry

abbrev pub served : Option Memtable.Entry → Option Sstable.Entry
served none = none
served (some e) = some (stored (table_entry e))

pub lookup_in-table_entries :
    (key : Bytes) (es : List Memtable.Entry)
    → lookup_in key (table_entries es) ≡ served (find_entry key es)
lookup_in-table_entries key [] = unfold lookup_in find_entry in refl
lookup_in-table_entries key (e ∷ es) = elim (Bool-cases (equal (content e.key) key)) [
  | inl t ↦
      let o = (equal-compare (content e.key) key).0 t in
      lookup_in-hit key (table_entry e) (table_entries es) t
      ∙ sym (ap served (find_entry-hit key e es o))
  | inr f ↦
      let ne : compare (content e.key) key ≢ Ordering.eq =
        λ q. (let t = (equal-compare (content e.key) key).1 q in cc) in
      lookup_in-skip key (table_entry e) (table_entries es) ne
      ∙ lookup_in-table_entries key es
      ∙ sym (ap served (find_entry-skip key e es ne))
]

All-table_entries :
    (a : Bytes) (es : List Memtable.Entry)
    → All (λ y. Before a (key_of y)) es
    → All (λ y. Before a (key_in y)) (table_entries es)
All-table_entries a [] all = tt
All-table_entries a (e ∷ es) all = (all.0, All-table_entries a es all.1)

pub AreAscending-table_entries :
    (es : List Memtable.Entry) → IsAscending es → AreAscending (table_entries es)
AreAscending-table_entries [] asc = tt
AreAscending-table_entries (e ∷ es) asc =
    (All-table_entries (content e.key) es asc.0, AreAscending-table_entries es asc.1)
