-- ===== src/Sstable/Taken.antt =====
-- A writer that took entries in order, with its counters and its Bloom filter.
use mathlib.Core.Path.{subst}
use go_durable_engine.Prelude.{
  ℕ, ◌+◌, ◌^◌, ◌<◌, ◌≡◌, refl, sym, ap, ◌∙◌, inl, inr, Bool, false, Bool-cases, none, some, List,
  [], ◌∷◌, ◌++◌, append-nil, append_assoc, map, arith, length, length-append, ltb, leb, ◌==◌,
  if◌then◌else◌, ok, Bytes, IsUint64, All, All-append_iff,
}
use go_durable_engine.Bytes.{Slice, content, is_neg}
use go_durable_engine.Bytes.Order.{Before-gt}
use go_durable_engine.Bloom.{Builder, builder_add}
use go_durable_engine.Sstable.{Entry}
use go_durable_engine.Sstable.Writer.{Writer, create, flush_block, buffered, is_before, add_entries}
use go_durable_engine.Sstable.Blocks.{IsStorable, room_for}
use go_durable_engine.Sstable.Seeking.{key_in, AreAscending}
use go_durable_engine.Sstable.Indexed.{last_of}
use go_durable_engine.Sstable.Picked.{last_of-behind}
use go_durable_engine.Sstable.Adding.{
  after, add-after, add_entries-ok, after-closed, after-last_key,
}
use go_durable_engine.Sstable.Holding.{Holding, create-Holding, after-Holding, room_for-append}

abbrev pub HasKey : Entry → Type 0
HasKey e = e.key ≡ some (key_in e)

pub record Taken (w : Writer) (all : List Entry) : Type 0 where
  pub holding : Holding w all
  pub is_open : w.closed ≡ false
  pub keys : w.bloom.keys ≡ map key_in all
  pub seqs : IsUint64 w.max_seq
  pub count : w.entry_count ≡ length all
  pub last : w.last_key ≡ last_of none all

create-Taken : (bs ri : ℕ) → Taken (create bs ri) []
create-Taken bs ri = record {
  holding = create-Holding bs ri;
  is_open = unfold create in refl;
  keys = unfold create in refl;
  seqs = unfold create in omega arith;
  count = unfold create in refl;
  last = unfold create in refl;
}

-- A flush keeps what is said of the whole table.
pub flush_block-keeps :
    (w : Writer)
    → ((flush_block w).bloom ≡ w.bloom)
      × ((flush_block w).max_seq ≡ w.max_seq)
      × ((flush_block w).entry_count ≡ w.entry_count)
unfolding flush_block
flush_block-keeps w = elim (Bool-cases (length w.buf == 0)) [
  | inl t ↦ rw t (refl, refl, refl)
  | inr f ↦ rw f (refl, refl, refl)
]

after-fields :
    (w : Writer) (key : Bytes) (e : Entry)
    → ((after w key e).bloom.keys ≡ w.bloom.keys ++ key ∷ [])
      × ((after w key e).max_seq ≡ (if ltb w.max_seq e.seq then e.seq else w.max_seq))
      × ((after w key e).entry_count ≡ w.entry_count + 1)
after-fields w key e =
    let b = buffered w key e in
    let k : b.bloom.keys ≡ w.bloom.keys ++ key ∷ [] = unfold buffered builder_add in refl in
    let m : b.max_seq ≡ (if ltb w.max_seq e.seq then e.seq else w.max_seq) =
      unfold buffered in refl in
    let n : b.entry_count ≡ w.entry_count + 1 = unfold buffered in refl in
    elim (Bool-cases (leb b.block_size (length b.buf))) [
      | inl t ↦
          let f = flush_block-keeps b in
          let s : after w key e ≡ flush_block b =
            ap (λ (c : Bool). if c then flush_block b else b) t in
          (
            ap (λ (v : Writer). v.bloom.keys) s ∙ ap (λ (v : Builder). v.keys) f.0 ∙ k,
            ap (λ (v : Writer). v.max_seq) s ∙ f.1 ∙ m,
            ap (λ (v : Writer). v.entry_count) s ∙ f.2 ∙ n,
          )
      | inr u ↦
          let s : after w key e ≡ b = ap (λ (c : Bool). if c then flush_block b else b) u in
          (
            ap (λ (v : Writer). v.bloom.keys) s ∙ k,
            ap (λ (v : Writer). v.max_seq) s ∙ m,
            ap (λ (v : Writer). v.entry_count) s ∙ n,
          )
    ]

map-snoc :
    (xs : List Entry) (e : Entry) → map key_in (xs ++ e ∷ []) ≡ map key_in xs ++ key_in e ∷ []
map-snoc [] e = refl
map-snoc (x ∷ xs) e = ap (λ (t : List Bytes). key_in x ∷ t) (map-snoc xs e)

last_of-snoc :
    (k : Slice) (xs : List Entry) (e : Entry) → last_of k (xs ++ e ∷ []) ≡ some (key_in e)
last_of-snoc k [] e = refl
last_of-snoc k (x ∷ xs) e = last_of-snoc (some (key_in x)) xs e

pub last_of-some :
    (k : Bytes) (xs : List Entry) → last_of (some k) xs ≡ some (content (last_of (some k) xs))
last_of-some k [] = refl
last_of-some k (x ∷ xs) = last_of-some (key_in x) xs

-- The next entry in order is accepted.
is_before-ascending :
    (done : List Entry) (e : Entry) (es : List Entry)
    → AreAscending (done ++ e ∷ es)
    → is_before (key_in e) (last_of none done) ≡ false
unfolding is_before
is_before-ascending [] e es asc = refl
is_before-ascending (x ∷ xs) e es asc =
    let lt = (last_of-behind x xs (e ∷ es) asc).0 in
    let gt = Before-gt (content (last_of none (x ∷ xs))) (key_in e) lt in
    rw (last_of-some (key_in x) xs) (ap is_neg gt)

max_seq_bound : (m s : ℕ) → IsUint64 m → IsUint64 s → IsUint64 (if ltb m s then s else m)
max_seq_bound m s hm hs = ground (arith, hm, hs)

after-Taken :
    (w : Writer) (done : List Entry) (e : Entry)
    → Taken w done
    → All IsStorable (done ++ e ∷ [])
    → room_for (done ++ e ∷ []) < 2 ^ 32
    → Taken (after w (key_in e) e) (done ++ e ∷ [])
after-Taken w done e t storable room =
    let f = after-fields w (key_in e) e in
    let own = (All-append_iff IsStorable done (e ∷ []) storable).1 in
    record {
      holding = after-Holding w done e t.holding storable room;
      is_open = after-closed w (key_in e) e ∙ t.is_open;
      keys = f.0 ∙ ap (λ (k : List Bytes). k ++ key_in e ∷ []) t.keys ∙ sym (map-snoc done e);
      seqs = subst IsUint64 (sym f.1) (max_seq_bound w.max_seq e.seq t.seqs own.0.0);
      count = omega (arith, f.2, t.count, length-append done (e ∷ []));
      last = after-last_key w (key_in e) e ∙ sym (last_of-snoc none done e);
    }

pub add_entries-Taken :
    (es : List Entry) (w : Writer) (done : List Entry)
    → Taken w done
    → AreAscending (done ++ es)
    → All HasKey es
    → All IsStorable (done ++ es)
    → room_for (done ++ es) < 2 ^ 32
    → (w' : Writer) × (add_entries w es ≡ ok w') × Taken w' (done ++ es)
unfolding add_entries
add_entries-Taken [] w done t asc keyed storable room =
    (w, refl, subst (Taken w) (sym (append-nil done)) t)
add_entries-Taken (e ∷ es) w done t asc keyed storable room =
    let assoc : done ++ e ∷ es ≡ (done ++ e ∷ []) ++ es = sym (append_assoc done (e ∷ []) es) in
    let storable' = subst (All IsStorable) assoc storable in
    let t' =
      after-Taken w done e t (All-append_iff IsStorable (done ++ e ∷ []) es storable').0
        (omega (arith, room, ap room_for assoc, room_for-append (done ++ e ∷ []) es)) in
    let open_key : is_before (key_in e) w.last_key ≡ false =
      ap (is_before (key_in e)) t.last ∙ is_before-ascending done e es asc in
    let r =
      add_entries-Taken es (after w (key_in e) e) (done ++ e ∷ []) t' (subst AreAscending assoc asc)
        keyed.1 storable' (omega (arith, room, ap room_for assoc)) in
    (
      r.0,
      add_entries-ok w (after w (key_in e) e) e es
            (add-after w e t.is_open (key_in e) keyed.0 open_key)
          ∙ r.1,
      subst (Taken r.0) (sym assoc) r.2,
    )

-- Entries in order are accepted by a new writer.
pub add_entries-create :
    (bs ri : ℕ) (es : List Entry)
    → AreAscending es
    → All HasKey es
    → All IsStorable es
    → room_for es < 2 ^ 32
    → (w : Writer) × (add_entries (create bs ri) es ≡ ok w) × Taken w es
add_entries-create bs ri es asc keyed storable room =
    add_entries-Taken es (create bs ri) [] (create-Taken bs ri) asc keyed storable room
