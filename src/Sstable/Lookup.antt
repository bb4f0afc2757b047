-- ===== src/Sstable/Lookup.antt =====
-- A table that was written from entries in order and opened again finds each of them by its key.
use mathlib.Core.Path.{subst}
use go_durable_engine.Prelude.{
  ℕ, ◌+◌, ◌^◌, ◌≤◌, ◌<◌, ◌≡◌, refl, sym, ap, ◌∙◌, inl, inr, Bool, true, false, Bool-cases, Option,
  none, some, List, [], ◌∷◌, ◌++◌, append_assoc, map, arith, length, Result, ok, err, Bytes, All,
}
use go_durable_engine.Bytes.{content, equal}
use go_durable_engine.Bytes.Order.{equal_iff}
use go_durable_engine.Bloom.{Filter, may_contain, build, marshal_binary}
use go_durable_engine.Bloom.Built.{
  AreSizes, IsUsable, may_contain-some, build-IsUsable, length-marshal_binary,
}
use go_durable_engine.Sstable.{Error, Entry, IndexRec, Meta}
use go_durable_engine.Sstable.Writer.{
  Writer, create, flush_block, add_entries, index_bytes, footer_bytes, finished, finish, write_file,
}
use go_durable_engine.Sstable.Reader.{
  BlockIter, Reader, read_block, new_block_iter, seek, found_entry, block_for, open_table, get,
}
use go_durable_engine.Sstable.Blocks.{IsStorable, room_for}
use go_durable_engine.Sstable.Table.{stored_rec, length-index_bytes}
use go_durable_engine.Sstable.Footer.{finish-open, open_table-finish}
use go_durable_engine.Sstable.Seeking.{key_in, AreAscending, lookup_in}
use go_durable_engine.Sstable.Restarts.{Points, seek-Finds}
use go_durable_engine.Sstable.Indexed.{last_of, Stored, AllStored, concat}
use go_durable_engine.Sstable.Picked.{
  IsSearch, pick, Picks, block_for-pick, pick-Picks, AllStored-LastsAscending,
}
use go_durable_engine.Sstable.Taken.{HasKey, add_entries-create, flush_block-keeps, last_of-some}
use go_durable_engine.Sstable.Whole.{Holding-Whole, AllStored-room}

module _ (search : ℕ → (ℕ → Bool) → ℕ) (r : Reader) (key : Bytes) where
  get-denied : may_contain r.bloom key ≡ some false → get search r key ≡ ok none
  unfolding get
  get-denied e = rw (e, get) refl

  get-outside :
      may_contain r.bloom key ≡ some true
      → block_for search r key ≡ none
      → get search r key ≡ ok none
  unfolding get
  get-outside e b = rw (e, b, get) refl

  get-inside :
      (rec : IndexRec) (body : Bytes) (it it' : BlockIter)
      → may_contain r.bloom key ≡ some true
      → block_for search r key ≡ some rec
      → read_block r.file rec ≡ ok body
      → new_block_iter body ≡ ok it
      → seek it key ≡ ok it'
      → get search r key ≡ ok (found_entry it' key)
  unfolding get
  get-inside rec body it it' e b rd o s = rw (e, b, get) (rw rd (rw o (rw s refl)))

-- A key that the filter denies is the key of denied entry.
lookup_in-denied :
    (f : Filter) (key : Bytes) (es : List Entry)
    → All (λ k. may_contain f k ≡ some true) (map key_in es)
    → may_contain f key ≡ some false
    → lookup_in key es ≡ none
unfolding lookup_in
lookup_in-denied f key [] all denied = refl
lookup_in-denied f key (e ∷ es) all denied = elim (Bool-cases (equal (key_in e) key)) [
  | inl t ↦
      let same = (equal_iff (key_in e) key).0 t in
      let allowed : some false ≡ some true = sym denied ∙ ap (may_contain f) (sym same) ∙ all.0 in
      absurd (differ allowed)
  | inr n ↦ rw n (lookup_in-denied f key es all.1 denied)
]
  where
    differ : some false ≡ some true → ⊥
    differ q = cc

-- The records as they are read back.
Stored-stored_rec :
    (file : Bytes) (r : IndexRec) (b : List Entry) → Stored file r b → Stored file (stored_rec r) b
Stored-stored_rec file r b s =
    let last : last_of none b ≡ some (content (last_of none b)) =
      subst (λ (t : List Entry). last_of none t ≡ some (content (last_of none t))) (sym s.whole)
        (last_of-some (key_in s.first) s.others) in
    record {
      first = s.first;
      others = s.others;
      whole = s.whole;
      last = ap (λ k. some (content k)) s.last ∙ sym last;
      found = λ rest.
          (let f = s.found rest in
            record {
              body = f.body;
              block = unfold read_block in f.block;
              it = f.it;
              opened = f.opened;
              points = f.points;
            });
    }

AllStored-stored_rec :
    (rs : List IndexRec) (bs : List (List Entry)) (file : Bytes)
    → AllStored file rs bs
    → AllStored file (map stored_rec rs) bs
AllStored-stored_rec [] [] file s = tt
AllStored-stored_rec [] (b ∷ bs) file s = s
AllStored-stored_rec (r ∷ rs) [] file s = s
AllStored-stored_rec (r ∷ rs) (b ∷ bs) file s =
    (Stored-stored_rec file r b s.0, AllStored-stored_rec rs bs file s.1)

-- The lookup in the block that the search picked.
get-Picks :
    (search : ℕ → (ℕ → Bool) → ℕ) (r : Reader) (key front rest : Bytes) (all : List Entry)
    (o : Option IndexRec)
    → r.file ≡ front ++ rest
    → may_contain r.bloom key ≡ some true
    → block_for search r key ≡ o
    → Picks front key all o
    → get search r key ≡ ok (lookup_in key all)
get-Picks search r key front rest all none whole allowed b p =
    get-outside search r key allowed b ∙ ap ok (sym p)
get-Picks search r key front rest all (some rec) whole allowed b p =
    let st = p.1 in
    let f = st.found rest in
    let asc = subst AreAscending st.whole p.2 in
    let pts = subst (Points f.it.block f.it.restarts) st.whole f.points in
    let s = seek-Finds f.it st.first st.others key pts asc in
    get-inside search r key rec f.body f.it s.0 allowed b
      (ap (λ (x : Bytes). read_block x rec) whole ∙ f.block) f.opened s.1
    ∙ ap ok (s.2 ∙ ap (lookup_in key) (sym st.whole) ∙ sym p.3)

-- A reader with the blocks of a table in its file, and a filter that denies none of its keys.
pub get-lookup_in :
    (search : ℕ → (ℕ → Bool) → ℕ) (r : Reader) (key front rest : Bytes) (bs : List (List Entry))
    → IsSearch search
    → r.file ≡ front ++ rest
    → AllStored front r.index bs
    → AreAscending (concat bs)
    → IsUsable r.bloom
    → All (λ k. may_contain r.bloom k ≡ some true) (map key_in (concat bs))
    → get search r key ≡ ok (lookup_in key (concat bs))
get-lookup_in search r key front rest bs law whole stored asc usable keys =
    let v = may_contain-some r.bloom key usable in
    elim (Bool-cases v.0) [
      | inr f ↦
          let denied = v.1 ∙ ap some f in
          get-denied search r key denied
          ∙ ap ok (sym (lookup_in-denied r.bloom key (concat bs) keys denied))
      | inl t ↦
          let b =
            block_for-pick search r key law
              (AllStored-LastsAscending r.index bs front stored asc) in
          get-Picks search r key front rest (concat bs) (pick key r.index) whole (v.1 ∙ ap some t) b
            (pick-Picks r.index bs front key stored asc)
    ]

write_file-finish :
    (sizes : ℕ → ℕ × ℕ) (w w' : Writer) (es : List Entry)
    → add_entries w es ≡ ok w'
    → write_file sizes w es ≡ finish sizes w'
unfolding write_file
write_file-finish sizes w w' es e = rw (e, write_file) refl

-- What the writer of a table returns for these entries, and what a reader of its file has.
pub record Written (sizes : ℕ → ℕ × ℕ) (search : ℕ → (ℕ → Bool) → ℕ) (w : Writer) (es : List Entry)
    : Type 0 where
  pub meta : Meta
  pub writer : Writer
  pub done : write_file sizes w es ≡ ok (meta, writer)
  pub reader : Reader
  pub opened : open_table writer.file ≡ ok reader
  pub serves : (key : Bytes) → get search reader key ≡ ok (lookup_in key es)

abbrev writer_of : Result Error (Meta × Writer) → Bytes
writer_of (ok (m, w)) = w.file
writer_of (err e) = []

-- What is in front of the filter in a finished file.
finished-file :
    (sizes : ℕ → ℕ × ℕ) (w w' : Writer) (bf : Filter) (m : Meta)
    → w.closed ≡ false
    → build sizes w.bloom ≡ some bf
    → finish sizes w ≡ ok (m, w')
    → (rest : Bytes) × (w'.file ≡ (flush_block w).file ++ rest)
unfolding finished
finished-file sizes w w' bf m is_open built e =
    let w1 = flush_block w in
    let bdata = marshal_binary bf in
    let indexed = index_bytes w1.index in
    let same = ap writer_of (sym e ∙ finish-open sizes w bf is_open built) in
    let footer = footer_bytes (record {
      index_off = length w1.file + length bdata;
      index_len = length indexed;
      bloom_off = length w1.file;
      bloom_len = length bdata;
      max_seq = w1.max_seq;
      entries = w1.entry_count;
    }) in
    (
      bdata ++ (indexed ++ footer),
      same
          ∙ append_assoc (w1.file ++ bdata) indexed footer
          ∙ append_assoc w1.file bdata (indexed ++ footer),
    )

length-room_for : (es : List Entry) → length es ≤ room_for es
length-room_for [] = omega arith
length-room_for (e ∷ es) = omega (arith, length-room_for es)

-- Entries in ascending order of their keys, each with a key and together of less than 4 GiB, are
-- written to a table with any sizes of blocks and distances of restart points; the file opens again,
-- and a lookup of any key in it gives exactly the entry of that key, or nothing where there is none.
pub get-write_file :
    (sizes : ℕ → ℕ × ℕ) (search : ℕ → (ℕ → Bool) → ℕ) (bs ri : ℕ) (es : List Entry)
    → AreSizes sizes
    → IsSearch search
    → AreAscending es
    → All HasKey es
    → All IsStorable es
    → room_for es < 2 ^ 32
    → Written sizes search (create bs ri) es
get-write_file sizes search bs ri es good law asc keyed storable room =
    let a = add_entries-create bs ri es asc keyed storable room in
    let w = a.0 in
    let t = a.2 in
    let h = Holding-Whole w es t.holding storable room in
    let w1 = flush_block w in
    let f = build-IsUsable sizes w.bloom good in
    let bf = f.0 in
    let asc' = subst AreAscending h.whole asc in
    let ir =
      AllStored-room w1.index h.blocks w1.file h.stored (omega (arith, h.size))
        (omega (arith, room, ap room_for h.whole)) in
    let count : length w1.index < 2 ^ 32 = omega (arith, ir.1, room, ap room_for h.whole) in
    let keeps = flush_block-keeps w in
    let ib = length-index_bytes w1.index ir.0 (omega arith) in
    let o =
      open_table-finish sizes w bf t.is_open f.1 f.2.storable ir.0 (omega arith)
        (omega (arith, keeps.1, t.seqs)) (omega (arith, keeps.2, t.count, length-room_for es))
        (omega (arith, h.size, length-marshal_binary bf f.2, ib, ir.2, ap room_for h.whole)) in
    let front = finished-file sizes w o.1 bf o.0 t.is_open f.1 o.2 in
    record {
      meta = o.0;
      writer = o.1;
      done = write_file-finish sizes (create bs ri) w es a.1 ∙ o.2;
      reader = record {
        file = o.1.file;
        index = map stored_rec w1.index;
        bloom = bf;
        max_seq = w1.max_seq;
        entries = w1.entry_count;
      };
      opened = o.3;
      serves = λ key.
          get-lookup_in search
            (record {
              file = o.1.file;
              index = map stored_rec w1.index;
              bloom = bf;
              max_seq = w1.max_seq;
              entries = w1.entry_count;
            })
            key w1.file front.0 h.blocks law front.1
            (AllStored-stored_rec w1.index h.blocks w1.file h.stored) asc' f.2
            (subst (All (λ k. may_contain bf k ≡ some true)) (t.keys ∙ ap (map key_in) h.whole) f.3)
          ∙ ap ok (ap (lookup_in key) (sym h.whole));
    }
