-- ===== src/Sstable/Whole.antt =====
-- The blocks of a finished table, and the sizes of its index.
use mathlib.Core.Path.{subst}
use go_durable_engine.Prelude.{
  ◌+◌, ◌*◌, ◌^◌, ◌≤◌, ◌<◌, ◌≡◌, refl, sym, ap, ◌∙◌, inl, inr, true, Bool-cases, none, List, [], ◌∷◌,
  ◌++◌, append-nil, arith, length, length-append, ltb, ◌==◌, if◌then◌else◌, take, drop, Result, ok,
  err, ◌>>=◌, Bytes, All, All-append_iff,
}
use go_durable_engine.Bytes.{content}
use go_durable_engine.Sstable.{Error, Entry, IndexRec}
use go_durable_engine.Sstable.Writer.{Writer, flush_block}
use go_durable_engine.Sstable.Reader.{read_at, checked, read_block}
use go_durable_engine.Sstable.Blocks.{fill, IsStorable, room_for}
use go_durable_engine.Sstable.Table.{IsIndexRec, index_room}
use go_durable_engine.Sstable.Indexed.{last_of, Stored, AllStored, concat}
use go_durable_engine.Sstable.Holding.{Holding, flush-Holding, room_for-append}

-- A writer whose entries all stand in blocks of its file.
pub record Whole (w : Writer) (all : List Entry) : Type 0 where
  pub blocks : List (List Entry)
  pub whole : all ≡ concat blocks
  pub stored : AllStored w.file w.index blocks
  pub size : length w.file ≤ 13 * room_for all

flush_block-empty : (w : Writer) → w.buf ≡ [] → flush_block w ≡ w
unfolding flush_block
flush_block-empty w e =
    (let t : (length w.buf == 0) ≡ true = ground (arith, ap length e) in rw t refl)

fill-none : (w : Writer) → fill w [] ≡ w
unfolding fill
fill-none w = refl

-- A writer with an empty buffer.
settled :
    (w : Writer) (all : List Entry) (h : Holding w all)
    → h.cur ≡ []
    → Whole w all × (flush_block w ≡ w)
settled w all h e =
    let same : w ≡ h.base = h.filled ∙ ap (fill h.base) e ∙ fill-none h.base in
    let whole : all ≡ concat h.blocks =
      h.whole ∙ ap (λ (t : List Entry). concat h.blocks ++ t) e ∙ append-nil (concat h.blocks) in
    (
      subst (λ (v : Writer). Whole v all) (sym same)
          (record {
            blocks = h.blocks;
            whole = whole;
            stored = h.stored;
            size = omega (arith, h.size, ap room_for whole);
          }),
      flush_block-empty w (ap (λ (v : Writer). v.buf) same ∙ h.fresh.empty),
    )

flush-Whole :
    (w : Writer) (all : List Entry) (h : Holding w all) (cur : List Entry)
    → h.cur ≡ cur
    → All IsStorable all
    → room_for all < 2 ^ 32
    → Whole (flush_block w) all
flush-Whole w all h [] e storable room =
    let s = settled w all h e in subst (λ (v : Writer). Whole v all) (sym s.1) s.0
flush-Whole w all h (x ∷ xs) e storable room =
    let whole : all ≡ concat h.blocks ++ x ∷ xs =
      h.whole ∙ ap (λ (t : List Entry). concat h.blocks ++ t) e in
    let parts =
      All-append_iff IsStorable (concat h.blocks) (x ∷ xs)
        (subst (All IsStorable) whole storable) in
    let f =
      flush-Holding h.base h.blocks x xs h.fresh h.stored h.size parts.1
        (omega (arith, room, ap room_for whole, room_for-append (concat h.blocks) (x ∷ xs))) in
    let same : w ≡ fill h.base (x ∷ xs) = h.filled ∙ ap (fill h.base) e in
    let s = settled (flush_block (fill h.base (x ∷ xs))) (concat h.blocks ++ x ∷ xs) f.0 f.1 in
    subst (λ (v : Writer). Whole (flush_block v) all) (sym same)
      (subst (Whole (flush_block (fill h.base (x ∷ xs)))) (sym whole) s.0)

-- After the last block went to the file.
pub Holding-Whole :
    (w : Writer) (all : List Entry)
    → Holding w all
    → All IsStorable all
    → room_for all < 2 ^ 32
    → Whole (flush_block w) all
Holding-Whole w all h storable room = flush-Whole w all h h.cur refl storable room

read_block-within :
    (file : Bytes) (r : IndexRec) (body : Bytes)
    → read_block file r ≡ ok body
    → r.offset + r.length ≤ length file
unfolding read_block read_at
read_block-within file r body e = elim (Bool-cases (ltb (length file) (r.offset + r.length))) [
  | inr f ↦ ground arith
  | inl t ↦
      let bad : (if ltb (length file) (r.offset + r.length)
            then err Error.corrupt
            else ok (take r.length (drop r.offset file)))
          ≡ err Error.corrupt =
        rw t refl in
      let q : err Error.corrupt ≡ ok body =
        sym (ap (λ (x : Result Error Bytes). x >>= λ buf. checked 8 buf) bad) ∙ e in
      absurd (err-ok q)
]
  where
    err-ok : {x : Error} {b : Bytes} → err x ≡ ok b → ⊥
    err-ok q = cc

length-last_of :
    (e : Entry) (es : List Entry)
    → length (content (last_of none (e ∷ es))) + 41 ≤ room_for (e ∷ es)
length-last_of e [] = omega arith
length-last_of e (x ∷ es) = omega (arith, length-last_of x es)

Stored-room :
    (file : Bytes) (r : IndexRec) (b : List Entry)
    → Stored file r b
    → (length (content r.last_key) + 41 ≤ room_for b) × (r.offset + r.length ≤ length file)
Stored-room file r b s =
    let f = s.found [] in
    (
      omega (
        arith,
        ap (λ k. length (content k)) (s.last ∙ ap (last_of none) s.whole),
        length-last_of s.first s.others,
        ap room_for s.whole,
      ),
      omega (arith, read_block-within (file ++ []) r f.body f.block, length-append file []),
    )

-- The index of a table: its records fit their fields, and their bytes are no more than the entries'.
pub AllStored-room :
    (rs : List IndexRec) (bs : List (List Entry)) (file : Bytes)
    → AllStored file rs bs
    → length file < 2 ^ 63
    → room_for (concat bs) < 2 ^ 32
    → All IsIndexRec rs
      × (length rs ≤ room_for (concat bs))
      × (index_room rs ≤ room_for (concat bs))
AllStored-room [] bs file s small room = (tt, omega arith, omega arith)
AllStored-room (r ∷ rs) [] file s small room = absurd s
AllStored-room (r ∷ rs) (b ∷ bs) file s small room =
    let split = room_for-append b (concat bs) in
    let here = Stored-room file r b s.0 in
    let rest = AllStored-room rs bs file s.1 small (omega (arith, split)) in
    (
      ((omega (arith, here.0, split), omega (arith, here.1), omega (arith, here.1)), rest.0),
      omega (arith, here.0, split, rest.1),
      omega (arith, here.0, split, rest.2),
    )
