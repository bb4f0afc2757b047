-- ===== src/Sstable/Indexed.antt =====
-- A block in the file, as an index record finds it.
use mathlib.Core.Path.{subst}
use go_durable_engine.Prelude.{
  ℕ, ◌^◌, ◌<◌, ◌≡◌, refl, sym, ap, ◌∙◌, none, some, Option, List, [], ◌∷◌, ◌++◌, append_assoc,
  arith, length, get_elem?, ok, Bytes, All, false,
}
use go_durable_engine.Bytes.{Slice}
use go_durable_engine.Sstable.{Entry, IndexRec}
use go_durable_engine.Sstable.Writer.{Writer, flush_block, buffered}
use go_durable_engine.Sstable.Reader.{BlockIter, read_block, parse_restarts, new_block_iter}
use go_durable_engine.Sstable.Entries.{read_entry}
use go_durable_engine.Sstable.Blocks.{fill, IsStorable, room_for, length-fill}
use go_durable_engine.Sstable.Flush.{read_block-flush_block}
use go_durable_engine.Sstable.Seeking.{key_in, length-Reads}
use go_durable_engine.Sstable.Restarts.{Point, Points}
use go_durable_engine.Sstable.Filled.{IsFresh, fill-Points, length-restarts}

-- The key of the last entry.
abbrev pub last_of : Slice → List Entry → Slice
last_of k [] = k
last_of k (e ∷ es) = last_of (some (key_in e)) es

pub fill-last_key : (es : List Entry) (w : Writer) → (fill w es).last_key ≡ last_of w.last_key es
unfolding fill
fill-last_key [] w = refl
fill-last_key (e ∷ es) w =
    fill-last_key es (buffered w (key_in e) e)
    ∙ ap (λ (k : Slice). last_of k es) (unfold buffered in refl)

pub fill-file : (es : List Entry) (w : Writer) → (fill w es).file ≡ w.file
unfolding fill
fill-file [] w = refl
fill-file (e ∷ es) w = fill-file es (buffered w (key_in e) e) ∙ (unfold buffered in refl)

pub fill-index : (es : List Entry) (w : Writer) → (fill w es).index ≡ w.index
unfolding fill
fill-index [] w = refl
fill-index (e ∷ es) w = fill-index es (buffered w (key_in e) e) ∙ (unfold buffered in refl)

-- What a reader of a file that goes on arbitrarily makes of the record.
pub record Found (file : Bytes) (r : IndexRec) (es : List Entry) : Type 0 where
  pub body : Bytes
  pub block : read_block file r ≡ ok body
  pub it : BlockIter
  pub opened : new_block_iter body ≡ ok it
  pub points : Points it.block it.restarts es

-- The record leads to a block with these entries.
pub record Stored (file : Bytes) (r : IndexRec) (es : List Entry) : Type 0 where
  pub first : Entry
  pub others : List Entry
  pub whole : es ≡ first ∷ others
  pub last : r.last_key ≡ last_of none es
  pub found : (rest : Bytes) → Found (file ++ rest) r es

abbrev pub AllStored : Bytes → List IndexRec → List (List Entry) → Type 0
AllStored file [] [] = Unit {0}
AllStored file [] (b ∷ bs) = ⊥
AllStored file (r ∷ rs) [] = ⊥
AllStored file (r ∷ rs) (b ∷ bs) = Stored file r b × AllStored file rs bs

abbrev pub concat : List (List Entry) → List Entry
concat [] = []
concat (b ∷ bs) = b ++ concat bs

-- A file that grows keeps its blocks.
Stored-longer :
    (file more : Bytes) (r : IndexRec) (es : List Entry)
    → Stored file r es
    → Stored (file ++ more) r es
Stored-longer file more r es s = record {
  first = s.first;
  others = s.others;
  whole = s.whole;
  last = s.last;
  found = λ rest.
      subst (λ (f : Bytes). Found f r es) (sym (append_assoc file more rest))
        (s.found (more ++ rest));
}

pub AllStored-longer :
    (rs : List IndexRec) (bs : List (List Entry)) (file more : Bytes)
    → AllStored file rs bs
    → AllStored (file ++ more) rs bs
AllStored-longer [] [] file more s = tt
AllStored-longer [] (b ∷ bs) file more s = absurd s
AllStored-longer (r ∷ rs) [] file more s = absurd s
AllStored-longer (r ∷ rs) (b ∷ bs) file more s =
    (Stored-longer file more r b s.0, AllStored-longer rs bs file more s.1)

pub AllStored-snoc :
    (rs : List IndexRec) (bs : List (List Entry)) (file : Bytes) (r : IndexRec) (b : List Entry)
    → AllStored file rs bs
    → Stored file r b
    → AllStored file (rs ++ r ∷ []) (bs ++ b ∷ [])
AllStored-snoc [] [] file r b s t = (t, tt)
AllStored-snoc [] (c ∷ bs) file r b s t = absurd s
AllStored-snoc (q ∷ rs) [] file r b s t = absurd s
AllStored-snoc (q ∷ rs) (c ∷ bs) file r b s t = (s.0, AllStored-snoc rs bs file r b s.1 t)

get_elem?-snoc : (xs : List IndexRec) (r : IndexRec) → get_elem? (xs ++ r ∷ []) (length xs) ≡ some r
get_elem?-snoc [] r = refl
get_elem?-snoc (x ∷ xs) r = get_elem?-snoc xs r

abbrev or_rec : IndexRec → Option IndexRec → IndexRec
or_rec d none = d
or_rec d (some r) = r

snoc_injective : (xs : List IndexRec) (r q : IndexRec) → xs ++ r ∷ [] ≡ xs ++ q ∷ [] → r ≡ q
snoc_injective xs r q e = ap (or_rec r) (
    sym (get_elem?-snoc xs r)
    ∙ ap (λ (t : List IndexRec). get_elem? t (length xs)) e
    ∙ get_elem?-snoc xs q)

new_block_iter-parsed :
    (body buf : Bytes) (restarts : List ℕ) (e : Entry) (es : List Entry)
    → parse_restarts body ≡ ok (buf, restarts)
    → Points buf restarts (e ∷ es)
    → (it : BlockIter) × (new_block_iter body ≡ ok it) × Points it.block it.restarts (e ∷ es)
unfolding new_block_iter
new_block_iter-parsed body buf restarts e es p pts =
    let it : BlockIter = record {
      block = buf;
      restarts = restarts;
      off = 0;
      key = [];
      value = [];
      seq = 0;
      deleted = false;
      valid = false;
    } in
    (
      read_entry it pts.start.0 (key_in e) e.value e.seq e.deleted,
      rw p (pts.start.2 it refl refl refl),
      pts,
    )

Points-small :
    (b : Bytes) (es : List Entry) (restarts : List ℕ) (n : ℕ)
    → length b < n
    → All (Point b es) restarts
    → All (λ off. off < n) restarts
Points-small b es [] n lt all = tt
Points-small b es (r ∷ rs) n lt all =
    let p = all.0 in
    (omega (arith, length-Reads (p.first ∷ p.post) b r [] p.reads), Points-small b es rs n lt all.1)

-- A block that was filled from its start and flushed.
pub flush-Stored :
    (base : Writer) (e : Entry) (es : List Entry)
    → IsFresh base
    → All IsStorable (e ∷ es)
    → room_for (e ∷ es) < 2 ^ 32
    → (r : IndexRec) × ((flush_block (fill base (e ∷ es))).index ≡ base.index ++ r ∷ [])
      × Stored (flush_block (fill base (e ∷ es))).file r (e ∷ es)
flush-Stored base e es fresh storable room =
    let w = fill base (e ∷ es) in
    let size = length-fill base (e ∷ es) fresh.empty fresh.none_yet storable in
    let pts = fill-Points base e es fresh storable (omega (arith, size)) in
    let n = length-Reads (e ∷ es) w.buf 0 [] pts.start in
    let small = Points-small w.buf (e ∷ es) w.restarts (2 ^ 32) (omega (arith, size)) pts.each in
    let few : length w.restarts < 2 ^ 32 =
      omega (arith, size, n, length-restarts (e ∷ es) base, ap length fresh.no_points) in
    let flushed = λ (rest : Bytes). read_block-flush_block w rest (omega (arith, n)) small few in
    let r = (flushed []).0 in
    (
      r,
      (flushed []).2 ∙ ap (λ (t : List IndexRec). t ++ r ∷ []) (fill-index (e ∷ es) base),
      record {
        first = e;
        others = es;
        whole = refl;
        last = (flushed []).3 ∙ fill-last_key (e ∷ es) base;
        found = λ rest.
            (let f = flushed rest in
              let same : f.0 ≡ r = snoc_injective w.index f.0 r (sym f.2 ∙ (flushed []).2) in
              let o = new_block_iter-parsed f.1 w.buf w.restarts e es f.5 pts in
              record {
                body = f.1;
                block =
                    subst (λ (q : IndexRec). read_block ((flush_block w).file ++ rest) q ≡ ok f.1)
                      same f.4;
                it = o.0;
                opened = o.1;
                points = o.2;
              });
      },
    )
