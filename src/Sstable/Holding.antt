-- ===== src/Sstable/Holding.antt =====
-- What a writer holds after it took entries in order: whole blocks in its file, and the rest.
use mathlib.Core.Path.{subst}
use go_durable_engine.Prelude.{
  ℕ, ◌+◌, ◌*◌, ◌^◌, ◌≤◌, ◌<◌, ◌≡◌, refl, sym, ap, ◌∙◌, inl, inr, Bool, false, Bool-cases, List, [],
  ◌∷◌, ◌++◌, append-nil, append_assoc, arith, length, length-append, leb, ◌==◌, if◌then◌else◌,
  Bytes, All, All-append_iff,
}
use go_durable_engine.Sstable.{Entry, IndexRec}
use go_durable_engine.Sstable.Writer.{Writer, create, flush_block, buffered, with_crc, block_body}
use go_durable_engine.Sstable.Blocks.{fill, IsStorable, room_for, length-fill}
use go_durable_engine.Sstable.Seeking.{key_in, length-Reads}
use go_durable_engine.Sstable.Flush.{length-block}
use go_durable_engine.Sstable.Filled.{IsFresh, fill-Points, length-restarts}
use go_durable_engine.Sstable.Indexed.{
  AllStored, AllStored-longer, AllStored-snoc, concat, flush-Stored, fill-file,
}
use go_durable_engine.Sstable.Adding.{after}

pub record Holding (w : Writer) (all : List Entry) : Type 0 where
  pub blocks : List (List Entry)
  pub cur : List Entry
  pub base : Writer
  pub fresh : IsFresh base
  pub filled : w ≡ fill base cur
  pub whole : all ≡ concat blocks ++ cur
  pub stored : AllStored base.file base.index blocks
  pub size : length base.file ≤ 13 * room_for (concat blocks)

pub create-Holding : (bs ri : ℕ) → Holding (create bs ri) []
unfolding create fill
create-Holding bs ri = record {
  blocks = [];
  cur = [];
  base = create bs ri;
  fresh = record { empty = refl; none_yet = refl; no_points = refl };
  filled = refl;
  whole = refl;
  stored = tt;
  size = omega arith;
}

fill-snoc :
    (es : List Entry) (w : Writer) (e : Entry)
    → fill w (es ++ e ∷ []) ≡ buffered (fill w es) (key_in e) e
unfolding fill
fill-snoc [] w e = refl
fill-snoc (x ∷ es) w e = fill-snoc es (buffered w (key_in x) x) e

concat-snoc : (bs : List (List Entry)) (b : List Entry) → concat (bs ++ b ∷ []) ≡ concat bs ++ b
concat-snoc [] b = append-nil b
concat-snoc (c ∷ bs) b =
    ap (λ (t : List Entry). c ++ t) (concat-snoc bs b) ∙ sym (append_assoc c (concat bs) b)

pub room_for-append : (xs ys : List Entry) → room_for (xs ++ ys) ≡ room_for xs + room_for ys
room_for-append [] ys = omega arith
room_for-append (x ∷ xs) ys = omega (arith, room_for-append xs ys)

flush_block-fields :
    (w : Writer)
    → 0 < length w.buf
    → IsFresh (flush_block w)
      × ((more : Bytes) × ((flush_block w).file ≡ w.file ++ more)
          × (length more ≡ length w.buf + length w.restarts * 4 + 8))
unfolding flush_block
flush_block-fields w pos =
    let g : (length w.buf == 0) ≡ false = ground arith in
    rw g (
      record { empty = refl; none_yet = refl; no_points = refl },
      (with_crc (block_body w.buf w.restarts), refl, length-block w.buf w.restarts),
    )

-- The current block goes to the file.
pub flush-Holding :
    (base : Writer) (blocks : List (List Entry)) (x : Entry) (xs : List Entry)
    → IsFresh base
    → AllStored base.file base.index blocks
    → length base.file ≤ 13 * room_for (concat blocks)
    → All IsStorable (x ∷ xs)
    → room_for (x ∷ xs) < 2 ^ 32
    → (h : Holding (flush_block (fill base (x ∷ xs))) (concat blocks ++ x ∷ xs)) × (h.cur ≡ [])
flush-Holding base blocks x xs fresh stored sized storable room =
    let w = fill base (x ∷ xs) in
    let size = length-fill base (x ∷ xs) fresh.empty fresh.none_yet storable in
    let pts = fill-Points base x xs fresh storable (omega (arith, size)) in
    let n = length-Reads (x ∷ xs) w.buf 0 [] pts.start in
    let f = flush_block-fields w (omega (arith, n)) in
    let s = flush-Stored base x xs fresh storable room in
    let longer : (flush_block w).file ≡ base.file ++ f.1.0 =
      f.1.1 ∙ ap (λ (t : Bytes). t ++ f.1.0) (fill-file (x ∷ xs) base) in
    let old : AllStored (flush_block w).file base.index blocks =
      subst (λ (t : Bytes). AllStored t base.index blocks) (sym longer)
        (AllStored-longer base.index blocks base.file f.1.0 stored) in
    (
      record {
        blocks = blocks ++ (x ∷ xs) ∷ [];
        cur = [];
        base = flush_block w;
        fresh = f.0;
        filled = unfold fill in refl;
        whole =
            sym (concat-snoc blocks (x ∷ xs)) ∙ sym (append-nil (concat (blocks ++ (x ∷ xs) ∷ [])));
        stored =
            subst
              (λ (t : List IndexRec). AllStored (flush_block w).file t (blocks ++ (x ∷ xs) ∷ []))
              (sym s.1)
              (AllStored-snoc base.index blocks (flush_block w).file s.0 (x ∷ xs) old s.2);
        size = omega (
          arith,
          sized,
          size,
          n,
          ap length longer,
          length-append base.file f.1.0,
          f.1.2,
          length-restarts (x ∷ xs) base,
          ap length fresh.no_points,
          ap room_for (concat-snoc blocks (x ∷ xs)),
          room_for-append (concat blocks) (x ∷ xs),
        );
      },
      refl,
    )

snoc-cons :
    (xs : List Entry) (e : Entry) → (y : Entry) × (ys : List Entry) × (xs ++ e ∷ [] ≡ y ∷ ys)
snoc-cons [] e = (e, [], refl)
snoc-cons (x ∷ xs) e = (x, xs ++ e ∷ [], refl)

-- One more entry.
pub after-Holding :
    (w : Writer) (all : List Entry) (e : Entry)
    → Holding w all
    → All IsStorable (all ++ e ∷ [])
    → room_for (all ++ e ∷ []) < 2 ^ 32
    → Holding (after w (key_in e) e) (all ++ e ∷ [])
after-Holding w all e h storable room =
    let cur = h.cur ++ e ∷ [] in
    let whole : all ++ e ∷ [] ≡ concat h.blocks ++ cur =
      ap (λ (t : List Entry). t ++ e ∷ []) h.whole
      ∙ append_assoc (concat h.blocks) h.cur (e ∷ []) in
    let full : buffered w (key_in e) e ≡ fill h.base cur =
      ap (λ (v : Writer). buffered v (key_in e) e) h.filled ∙ sym (fill-snoc h.cur h.base e) in
    let b = buffered w (key_in e) e in
    elim (Bool-cases (leb b.block_size (length b.buf))) [
      | inr f ↦
          subst (λ (v : Writer). Holding v (all ++ e ∷ []))
            (sym (ap (λ (c : Bool). if c then flush_block b else b) f))
            (record {
              blocks = h.blocks;
              cur = cur;
              base = h.base;
              fresh = h.fresh;
              filled = full;
              whole = whole;
              stored = h.stored;
              size = h.size;
            })
      | inl t ↦
          let (y, ys, q) = snoc-cons h.cur e in
          let parts =
            All-append_iff IsStorable (concat h.blocks) cur
              (subst (All IsStorable) whole storable) in
          let fits : room_for (y ∷ ys) < 2 ^ 32 =
            omega
              (arith, ap room_for whole, room_for-append (concat h.blocks) cur, ap room_for q) in
          let done =
            flush-Holding h.base h.blocks y ys h.fresh h.stored h.size
              (subst (All IsStorable) q parts.1) fits in
          let same : after w (key_in e) e ≡ flush_block (fill h.base (y ∷ ys)) =
            ap (λ (c : Bool). if c then flush_block b else b) t
            ∙ ap flush_block (full ∙ ap (fill h.base) q) in
          let all_same : concat h.blocks ++ (y ∷ ys) ≡ all ++ e ∷ [] =
            ap (λ (t' : List Entry). concat h.blocks ++ t') (sym q) ∙ sym whole in
          subst (λ (v : Writer). Holding v (all ++ e ∷ [])) (sym same)
            (subst (Holding (flush_block (fill h.base (y ∷ ys)))) all_same done.0)
    ]
