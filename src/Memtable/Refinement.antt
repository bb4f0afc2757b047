-- ===== src/Memtable/Refinement.antt =====
-- The skip list under any run of operations, against what each single key holds.
use mathlib.Core.Path.{subst}
use Prim.Native.Nat.{Ordering}
use go_durable_engine.Prelude.{
  ℕ, ◌≤◌, ◌≡◌, ◌≢◌, refl, sym, ap, ◌∙◌, inl, inr, Bool, true, false, Bool-cases, Option, none, List,
  [], ◌∷◌, arith, ltb, if◌then◌else◌, Bytes, All,
}
use go_durable_engine.Bytes.{Slice, compare, equal}
use go_durable_engine.Bytes.Order.{equal_iff, equal-compare}
use go_durable_engine.Memtable.{
  Entry, SkipList, set_entry, put, delete, get, new, clear, snapshot, max_seq, max_seq_loop,
}
use go_durable_engine.Memtable.Contents.{
  key_of, IsAscending, updated, insert_entry, find_entry, insert_entry-read, insert_entry-other,
}
use go_durable_engine.Memtable.Invariant.{Represents}
use go_durable_engine.Memtable.Read.{get-find_entry, snapshot_lem}
use go_durable_engine.Memtable.Operations.{set_entry-insert_entry, new-Represents, clear-Represents}

-- The operations that change a skip list, each with what is drawn for it.
pub data Op : Type 0 where
  put_op : (ℕ → Bool) → Slice → Bytes → ℕ → Op
  delete_op : (ℕ → Bool) → Slice → ℕ → Op
  clear_op : Op

unfoldable pub step : SkipList → Op → SkipList
step s (Op.put_op coins key value seq) = put s coins key value seq
step s (Op.delete_op coins key seq) = delete s coins key seq
step s Op.clear_op = clear s

unfoldable pub run : SkipList → List Op → SkipList
run s [] = s
run s (o ∷ os) = run (step s o) os

-- What a single key holds after an operation, and after a run of them.
abbrev pub entry_put : Slice → Bytes → ℕ → Entry
entry_put key value seq = record { key = key; value = value; seq = seq; deleted = false }

abbrev pub entry_deleted : Slice → ℕ → Entry
entry_deleted key seq = record { key = key; value = []; seq = seq; deleted = true }

abbrev pub write_held : Bytes → Option Entry → Entry → Option Entry
write_held key old e = if equal (key_of e) key then updated e old else old

unfoldable pub held : Bytes → Option Entry → List Op → Option Entry
held key old [] = old
held key old (Op.put_op coins k value seq ∷ os) =
    held key (write_held key old (entry_put k value seq)) os
held key old (Op.delete_op coins k seq ∷ os) =
    held key (write_held key old (entry_deleted k seq)) os
held key old (Op.clear_op ∷ os) = held key none os

-- A well-formed skip list stays one, and a key holds what the operation makes it hold.
pub get-set_entry :
    (s : SkipList) (coins : ℕ → Bool) (e : Entry) (es : List Entry) (key : Bytes)
    → Represents s es
    → get (set_entry s coins e) key ≡ write_held key (get s key) e
get-set_entry s coins e es key rep =
    let asc = subst IsAscending rep.contents rep.ok.ascending in
    let now =
      get-find_entry (set_entry s coins e) (insert_entry e es) key
        (set_entry-insert_entry s coins e es rep) in
    let was = get-find_entry s es key rep in
    elim (Bool-cases (equal (key_of e) key)) [
      | inl t ↦
          let k = (equal_iff (key_of e) key).0 t in
          rw t (
            now
            ∙ ap (λ (x : Bytes). find_entry x (insert_entry e es)) (sym k)
            ∙ insert_entry-read e es asc
            ∙ ap (λ (x : Bytes). updated e (find_entry x es)) k
            ∙ ap (updated e) (sym was))
      | inr f ↦
          let ne : compare (key_of e) key ≢ Ordering.eq =
            λ q. (let t = (equal-compare (key_of e) key).1 q in cc) in
          rw f (now ∙ insert_entry-other key e es ne ∙ sym was)
    ]

-- The entries of a skip list after an operation.
unfoldable contents_after : List Entry → Op → List Entry
contents_after es (Op.put_op coins key value seq) = insert_entry (entry_put key value seq) es
contents_after es (Op.delete_op coins key seq) = insert_entry (entry_deleted key seq) es
contents_after es Op.clear_op = []

step-Represents :
    (s : SkipList) (es : List Entry) (o : Op)
    → Represents s es
    → Represents (step s o) (contents_after es o)
unfolding step contents_after put delete
step-Represents s es (Op.put_op coins key value seq) rep =
    set_entry-insert_entry s coins (entry_put key value seq) es rep
step-Represents s es (Op.delete_op coins key seq) rep =
    set_entry-insert_entry s coins (entry_deleted key seq) es rep
step-Represents s es Op.clear_op rep = clear-Represents s

run-cases :
    (os : List Op) (s : SkipList) (es : List Entry)
    → Represents s es
    → ((fs : List Entry) × Represents (run s os) fs)
      × ((key : Bytes) → get (run s os) key ≡ held key (get s key) os)
unfolding run held contents_after
run-cases [] s es rep = ((es, rep), λ key. refl)
run-cases (Op.put_op coins k value seq ∷ os) s es rep =
    let r =
      run-cases os (step s (Op.put_op coins k value seq)) _
        (step-Represents s es (Op.put_op coins k value seq) rep) in
    (
      r.0,
      λ key.
          r.1 key
          ∙ ap (λ (t : Option Entry). held key t os)
              (unfold step put in get-set_entry s coins (entry_put k value seq) es key rep),
    )
run-cases (Op.delete_op coins k seq ∷ os) s es rep =
    let r =
      run-cases os (step s (Op.delete_op coins k seq)) _
        (step-Represents s es (Op.delete_op coins k seq) rep) in
    (
      r.0,
      λ key.
          r.1 key
          ∙ ap (λ (t : Option Entry). held key t os)
              (unfold step delete in get-set_entry s coins (entry_deleted k seq) es key rep),
    )
run-cases (Op.clear_op ∷ os) s es rep =
    let r = run-cases os (step s Op.clear_op) [] (step-Represents s es Op.clear_op rep) in
    (
      r.0,
      λ key.
          r.1 key
          ∙ ap (λ (t : Option Entry). held key t os)
              (get-find_entry (step s Op.clear_op) [] key (step-Represents s es Op.clear_op rep)
                ∙ (unfold find_entry in refl)),
    )

-- After any run of puts, deletes and clears on a new skip list, whatever levels were drawn, a lookup
-- gives what the run made that key hold: the writes to it since the last clear, one over the other,
-- where a write with a smaller sequence number than the one it meets is ignored. A snapshot lists
-- the same entries in ascending order of their keys, each key once.
pub run-held :
    (os : List Op)
    → ((key : Bytes) → get (run new os) key ≡ held key none os)
      × ((key : Bytes) → find_entry key (snapshot (run new os)) ≡ held key none os)
      × IsAscending (snapshot (run new os))
run-held os =
    let r = run-cases os new [] new-Represents in
    let fs = r.0.0 in
    let rep = r.0.1 in
    let e = snapshot_lem (run new os) fs rep in
    let none_yet : (key : Bytes) → get new key ≡ none =
      λ key. get-find_entry new [] key new-Represents ∙ (unfold find_entry in refl) in
    let gets : (key : Bytes) → get (run new os) key ≡ held key none os =
      λ key. r.1 key ∙ ap (λ (t : Option Entry). held key t os) (none_yet key) in
    (
      gets,
      λ key. ap (find_entry key) e ∙ sym (get-find_entry (run new os) fs key rep) ∙ gets key,
      subst IsAscending (sym e) (subst IsAscending rep.contents rep.ok.ascending),
    )

max_seq_loop_lem :
    (es : List Entry) (best : ℕ)
    → (best ≤ max_seq_loop es best) × All (λ x. x.seq ≤ max_seq_loop es best) es
unfolding max_seq_loop
max_seq_loop_lem [] best = (omega arith, tt)
max_seq_loop_lem (e ∷ es) best =
    let ih = max_seq_loop_lem es (if ltb best e.seq then e.seq else best) in
    (ground (arith, ih.0), (ground (arith, ih.0), ih.1))

-- `max_seq` is not below the sequence number of any entry.
max_seq-bound : (s : SkipList) (es : List Entry) → Represents s es → All (λ x. x.seq ≤ max_seq s) es
unfolding max_seq
max_seq-bound s es rep = rw (snapshot_lem s es rep) ((max_seq_loop_lem es 0).1)
