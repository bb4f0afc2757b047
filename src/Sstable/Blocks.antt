-- ===== src/Sstable/Blocks.antt =====
-- Reading back the entries of a block.
use native.Mathlib.Nat.{zero-mod}
use go_durable_engine.Prelude.{
  ℕ, zero, suc, ◌+◌, ◌-◌, ◌%◌, ◌^◌, ◌≤◌, ◌<◌, ◌≡◌, refl, sym, ap, ◌∙◌, ◌⊎◌, inl, inr, Option-cases,
  map, Bool, true, false, Bool-cases, none, some, List, [], ◌∷◌, ◌++◌, append-nil, append_assoc,
  arith, length, length-append, length-drop, take, drop, leb, ◌==◌, if◌then◌else◌, Result, ok, err,
  Bytes, IsUint64, All,
}
use go_durable_engine.Prelude.Pieces.{IsAt, IsAt-next}
use go_durable_engine.Bytes.{content, shared_prefix_len}
use go_durable_engine.Bytes.Shape.{shared_prefix_len-le, take-shared_prefix_len}
use go_durable_engine.Varint.{encode_uint64}
use go_durable_engine.Varint.Encode.{length-encode_uint64}
use go_durable_engine.Sstable.{Error, Entry}
use go_durable_engine.Sstable.Writer.{Writer, encode_entry, flag_of, shared_with, or_zero, buffered}
use go_durable_engine.Sstable.Reader.{BlockIter, next, entry_of}
use go_durable_engine.Sstable.Entries.{encode_entry-pieces, read_entry, next-encode_entry}

-- The writer after entries that go into one block, with no flush in between.
unfoldable pub fill : Writer → List Entry → Writer
fill w [] = w
fill w (e ∷ es) = fill (buffered w (content e.key) e) es

-- What they add to the buffer.
unfoldable pub written : Writer → List Entry → Bytes
written w [] = []
written w (e ∷ es) =
    encode_entry (or_zero (shared_with w (content e.key))) (content e.key) e.value e.seq e.deleted
    ++ written (buffered w (content e.key) e) es

pub fill-written : (es : List Entry) (w : Writer) → (fill w es).buf ≡ w.buf ++ written w es
unfolding fill written
fill-written [] w = sym (append-nil w.buf)
fill-written (e ∷ es) w =
    fill-written es (buffered w (content e.key) e)
    ∙ (unfold buffered in append_assoc w.buf _ (written (buffered w (content e.key) e) es))

length-encode_entry :
    (shared : ℕ) (key value : Bytes) (seq : ℕ) (deleted : Bool)
    → shared ≤ length key
    → IsUint64 (length key)
    → IsUint64 (length value)
    → IsUint64 seq
    → length (encode_entry shared key value seq deleted) ≤ 41 + length key + length value
length-encode_entry shared key value seq deleted le hk hv hs =
    let t5 = drop shared key ++ value in
    let t4 = encode_uint64 [] seq ++ (flag_of deleted ∷ t5) in
    let t3 = encode_uint64 [] (length value) ++ t4 in
    let t2 = encode_uint64 [] (length key - shared) ++ t3 in
    omega (
      arith,
      ap length (encode_entry-pieces shared key value seq deleted hk hv hs),
      length-append (encode_uint64 [] shared) t2,
      length-append (encode_uint64 [] (length key - shared)) t3,
      length-append (encode_uint64 [] (length value)) t4,
      length-append (encode_uint64 [] seq) (flag_of deleted ∷ t5),
      length-append (drop shared key) value,
      length-drop shared key,
      (length-encode_uint64 shared (omega arith)).1,
      (length-encode_uint64 (length key - shared) (omega arith)).1,
      (length-encode_uint64 (length value) hv).1,
      (length-encode_uint64 seq hs).1,
    )

-- The entries that `Next` gives one after the other, at most `n`.
unfoldable pub scan : ℕ → BlockIter → Result Error (List Entry)
scan zero it = ok []
scan (suc n) it = elim (next it) [
  | err x ↦ err x
  | ok it' ↦
      let rest = scan n it' in
      if it'.valid then (elim rest [ err x ↦ err x | ok es ↦ ok (entry_of it' ∷ es) ]) else ok []
]

-- What is read back of an entry: its key is never nil.
abbrev pub stored : Entry → Entry
stored e = record e { key = some (content e.key) }

abbrev pub IsStorable : Entry → Type 0
IsStorable e = IsUint64 e.seq × IsUint64 (length (content e.key)) × IsUint64 (length e.value)

-- The iterator's key is the one that the next entry may share bytes with.
abbrev pub Follows : BlockIter → Writer → Type 0
Follows it w =
    (key : Bytes)
    → (or_zero (shared_with w key) ≤ length key)
      × (or_zero (shared_with w key) ≤ length it.key)
      × (take (or_zero (shared_with w key)) it.key ≡ take (or_zero (shared_with w key)) key)

pub shared_with-restart :
    (w : Writer) → w.block_entries ≡ 0 → (key : Bytes) → shared_with w key ≡ none
unfolding shared_with
shared_with-restart w e key = elim (Option-cases w.last_key) [
  | inl n ↦ rw (n, shared_with)
  | inr (last, q) ↦
      let t : (w.block_entries % w.restart_int == 0) ≡ true =
        ap (λ (n : ℕ). n % w.restart_int == 0) e
        ∙ ap (λ (n : ℕ). n == 0) (zero-mod w.restart_int) in
      rw (q, shared_with) (rw t refl)
]

pub Follows-restart :
    (it : BlockIter) (w : Writer) → ((key : Bytes) → shared_with w key ≡ none) → Follows it w
Follows-restart it w fresh key = rw (fresh key) (omega arith, omega arith, refl)

shared_with-cases :
    (w : Writer) (last key : Bytes)
    → w.last_key ≡ some last
    → (or_zero (shared_with w key) ≡ 0) ⊎ (or_zero (shared_with w key) ≡ shared_prefix_len last key)
unfolding shared_with
shared_with-cases w last key e =
    rw (e, shared_with)
      (elim (Bool-cases (w.block_entries % w.restart_int == 0)) [
        | inl t ↦ inl (rw t refl)
        | inr f ↦ inr (rw f refl)
      ])

pub Follows-last :
    (it : BlockIter) (w : Writer) (last : Bytes)
    → w.last_key ≡ some last
    → it.key ≡ last
    → Follows it w
Follows-last it w last e k key = elim (shared_with-cases w last key e) [
  | inl z ↦ rw z (omega arith, omega arith, refl)
  | inr n ↦
      let b = shared_prefix_len-le last key in rw (n, k) (b.1, b.0, take-shared_prefix_len last key)
]

scan-next :
    (n : ℕ) (it it' : BlockIter) (es : List Entry)
    → next it ≡ ok it'
    → it'.valid ≡ true
    → scan n it' ≡ ok es
    → scan (suc n) it ≡ ok (entry_of it' ∷ es)
unfolding scan
scan-next n it it' es e v r = rw (e, scan) (rw r (rw v refl))

scan-end : (n : ℕ) (it : BlockIter) → it.off ≡ length it.block → scan (suc n) it ≡ ok []
unfolding scan next
scan-end n it e =
    (let t : leb (length it.block) it.off ≡ true = ground (arith, e) in rw (t, scan) refl)

scan-written :
    (es : List Entry) (w : Writer) (it : BlockIter) (n : ℕ)
    → length it.block < 2 ^ 63
    → All IsStorable es
    → Follows it w
    → IsAt it.block it.off (written w es)
    → length es < n
    → scan n it ≡ ok (map stored es)
unfolding written
scan-written es w it zero small storable follows h lt = absurd (omega arith)
scan-written [] w it (suc n) small storable follows h lt =
    scan-end n it (omega (arith, h.within, ap length h.tail, length-drop it.off it.block))
scan-written (e ∷ es) w it (suc n) small storable follows h lt =
    let key = content e.key in
    let shared = or_zero (shared_with w key) in
    let f = follows key in
    let enc = encode_entry shared key e.value e.seq e.deleted in
    let w' = buffered w key e in
    let it' = read_entry it (it.off + length enc) key e.value e.seq e.deleted in
    let step =
      next-encode_entry it shared key e.value e.seq e.deleted (written w' es) small storable.0.0 f.0
        f.1 f.2 h storable.0.1 storable.0.2 in
    let follows' : Follows it' w' = Follows-last it' w' key (unfold buffered in refl) refl in
    scan-next n it it' (map stored es) step refl (
      scan-written es w' it' n small storable.1 follows'
        (IsAt-next {p = it.block} enc (written w' es) h) (omega arith))

-- Entries that were put into an empty block, with any restart points, are read from that block in
-- the same order with their keys, values, sequence numbers and deletion marks, and then the block is
-- at its end. The key of the entry before the block does not matter.
pub scan-fill :
    (w : Writer) (es : List Entry) (restarts : List ℕ) (n : ℕ)
    → w.buf ≡ []
    → w.block_entries ≡ 0
    → All IsStorable es
    → length (fill w es).buf < 2 ^ 63
    → length es < n
    → scan n (record {
      block = (fill w es).buf;
      restarts = restarts;
      off = 0;
      key = [];
      value = [];
      seq = 0;
      deleted = false;
      valid = false;
    })
      ≡ ok (map stored es)
scan-fill w es restarts n empty none_yet storable small lt =
    let whole = fill-written es w ∙ ap (λ (t : Bytes). t ++ written w es) empty in
    let it : BlockIter = record {
      block = (fill w es).buf;
      restarts = restarts;
      off = 0;
      key = [];
      value = [];
      seq = 0;
      deleted = false;
      valid = false;
    } in
    scan-written es w it n small storable (Follows-restart it w (shared_with-restart w none_yet))
      (record { tail = whole; within = omega arith }) lt

-- A bound on the bytes of a block.
abbrev pub room_for : List Entry → ℕ
room_for [] = 0
room_for (e ∷ es) = 41 + length (content e.key) + length e.value + room_for es

length-written :
    (es : List Entry) (w : Writer) (it : BlockIter)
    → All IsStorable es
    → Follows it w
    → length (written w es) ≤ room_for es
unfolding written
length-written [] w it storable follows = omega arith
length-written (e ∷ es) w it storable follows =
    let key = content e.key in
    let shared = or_zero (shared_with w key) in
    let enc = encode_entry shared key e.value e.seq e.deleted in
    let w' = buffered w key e in
    let it' = read_entry it 0 key e.value e.seq e.deleted in
    let follows' : Follows it' w' = Follows-last it' w' key (unfold buffered in refl) refl in
    omega (
      arith,
      length-append enc (written w' es),
      length-encode_entry shared key e.value e.seq e.deleted (follows key).0 storable.0.1
          storable.0.2 storable.0.0,
      length-written es w' it' storable.1 follows',
    )

pub length-fill :
    (w : Writer) (es : List Entry)
    → w.buf ≡ []
    → w.block_entries ≡ 0
    → All IsStorable es
    → length (fill w es).buf ≤ room_for es
length-fill w es empty none_yet storable =
    let whole = fill-written es w ∙ ap (λ (t : Bytes). t ++ written w es) empty in
    let it : BlockIter = record {
      block = [];
      restarts = [];
      off = 0;
      key = [];
      value = [];
      seq = 0;
      deleted = false;
      valid = false;
    } in
    omega (
      arith,
      ap length whole,
      length-written es w it storable (Follows-restart it w (shared_with-restart w none_yet)),
    )
