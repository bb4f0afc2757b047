-- ===== src/Sstable/Filled.antt =====
-- The entries of a block that was filled, from each of its restart points on.
use mathlib.Core.Path.{subst}
use go_durable_engine.Prelude.{
  ok, ℕ, ◌+◌, ◌-◌, ◌%◌, ◌^◌, ◌≤◌, ◌<◌, ◌≡◌, refl, sym, ap, ◌∙◌, inl, inr, Bool, false, Bool-cases,
  Option-cases, none, some, List, [], ◌∷◌, ◌++◌, append_assoc, arith, length, length-append,
  length-drop, get_or, drop, ◌==◌, Bytes, IsUint64, All, All-append,
}
use go_durable_engine.Prelude.Pieces.{IsAt, IsAt-next}
use go_durable_engine.Bytes.{content, shared_prefix_len}
use go_durable_engine.Varint.{encode_uint64}
use go_durable_engine.Varint.Encode.{length-encode_uint64}
use go_durable_engine.Sstable.{Entry}
use go_durable_engine.Sstable.Writer.{Writer, encode_entry, flag_of, shared_with, or_zero, buffered}
use go_durable_engine.Sstable.Reader.{BlockIter}
use go_durable_engine.Sstable.Entries.{encode_entry-pieces, read_entry, next-encode_entry}
use go_durable_engine.Sstable.Blocks.{
  fill, written, fill-written, IsStorable, Follows, shared_with-restart, Follows-restart,
  Follows-last,
}
use go_durable_engine.Sstable.Seeking.{Reads}
use go_durable_engine.Sstable.Restarts.{Point, Points}

encode_entry-pos :
    (shared : ℕ) (key value : Bytes) (seq : ℕ) (deleted : Bool)
    → shared ≤ length key
    → IsUint64 (length key)
    → IsUint64 (length value)
    → IsUint64 seq
    → 0 < length (encode_entry shared key value seq deleted)
encode_entry-pos shared key value seq deleted le hk hv hs =
    let tail =
      encode_uint64 [] (length key - shared)
      ++ (encode_uint64 [] (length value)
          ++ (encode_uint64 [] seq ++ (flag_of deleted ∷ (drop shared key ++ value)))) in
    omega (
      arith,
      ap length (encode_entry-pieces shared key value seq deleted hk hv hs),
      length-append (encode_uint64 [] shared) tail,
      (length-encode_uint64 shared (omega arith)).0,
    )

-- An iterator with this key goes on with what the writer puts next.
abbrev pub Continues : Bytes → Writer → Type 0
Continues k w = (it : BlockIter) → it.key ≡ k → Follows it w

pub Reads-written :
    (es : List Entry) (w : Writer) (b : Bytes) (off : ℕ) (k : Bytes)
    → length b < 2 ^ 63
    → All IsStorable es
    → Continues k w
    → IsAt b off (written w es)
    → Reads b off k es
unfolding written
Reads-written [] w b off k small storable goes h =
    omega (arith, h.within, ap length h.tail, length-drop off b)
Reads-written (e ∷ es) w b off k small storable goes h =
    let key = content e.key in
    let shared = or_zero (shared_with w key) in
    let enc = encode_entry shared key e.value e.seq e.deleted in
    let w' = buffered w key e in
    let it0 : BlockIter = record {
      block = b;
      restarts = [];
      off = off;
      key = k;
      value = [];
      seq = 0;
      deleted = false;
      valid = false;
    } in
    let pos =
      encode_entry-pos shared key e.value e.seq e.deleted (goes it0 refl key).0 storable.0.1
        storable.0.2 storable.0.0 in
    let last : Continues key w' = λ it q. Follows-last it w' key (unfold buffered in refl) q in
    (
      off + length enc,
      omega (arith, pos),
      λ it qb qo qk.
          (let f = goes it qk key in
            let at : IsAt it.block it.off (enc ++ written w' es) =
              subst (λ (n : ℕ). IsAt it.block n (enc ++ written w' es)) (sym qo)
                (subst (λ (x : Bytes). IsAt x off (enc ++ written w' es)) (sym qb) h) in
            next-encode_entry it shared key e.value e.seq e.deleted (written w' es)
              (omega (arith, small, ap length qb)) storable.0.0 f.0 f.1 f.2 at storable.0.1
              storable.0.2
            ∙ ap (λ (n : ℕ). ok (read_entry it (n + length enc) key e.value e.seq e.deleted)) qo),
      Reads-written es w' b (off + length enc) key small storable.1 last
          (IsAt-next {p = b} enc (written w' es) h),
    )

shared_with-any :
    (w : Writer) (key key' : Bytes) → shared_with w key ≡ none → shared_with w key' ≡ none
unfolding shared_with
shared_with-any w key key' e = elim (Option-cases w.last_key) [
  | inl n ↦ rw (n, shared_with)
  | inr (last, q) ↦ elim (Bool-cases (w.block_entries % w.restart_int == 0)) [
    | inl t ↦ rw (q, shared_with) (rw t refl)
    | inr f ↦
        let s : shared_with w key ≡ some (shared_prefix_len last key) =
          rw (q, shared_with) (rw f refl) in
        let bad = sym s ∙ e in cc
  ]
]

-- A writer that starts a block, or puts a restart point, goes on from any key.
Continues-restart : (w : Writer) (key k : Bytes) → shared_with w key ≡ none → Continues k w
Continues-restart w key k e it q = Follows-restart it w (λ key'. shared_with-any w key key' e)

buffered-restart :
    (w : Writer) (key : Bytes) (e : Entry)
    → shared_with w key ≡ none
    → (buffered w key e).restarts ≡ w.restarts ++ length w.buf ∷ []
unfolding buffered
buffered-restart w key e q = rw (q, buffered) refl

buffered-shared :
    (w : Writer) (key : Bytes) (e : Entry) (n : ℕ)
    → shared_with w key ≡ some n
    → (buffered w key e).restarts ≡ w.restarts
unfolding buffered
buffered-shared w key e n q = rw (q, buffered) refl

-- The restart points of a block that is filled further, over all entries of the block.
restarts-Points :
    (es : List Entry) (w : Writer) (b : Bytes) (done all : List Entry) (k : Bytes)
    → length b < 2 ^ 63
    → All IsStorable es
    → Continues k w
    → IsAt b (length w.buf) (written w es)
    → all ≡ done ++ es
    → All (Point b all) w.restarts
    → All (Point b all) (fill w es).restarts
unfolding fill
restarts-Points [] w b done all k small storable goes h whole pts = pts
restarts-Points (e ∷ es) w b done all k small storable goes h whole pts =
    let key = content e.key in
    let w' = buffered w key e in
    let enc = encode_entry (or_zero (shared_with w key)) key e.value e.seq e.deleted in
    let last : Continues key w' = λ it q. Follows-last it w' key (unfold buffered in refl) q in
    let h0 : IsAt b (length w.buf) (enc ++ written w' es) = unfold written in h in
    let len : length w'.buf ≡ length w.buf + length enc =
      unfold buffered in length-append w.buf enc in
    let h' : IsAt b (length w'.buf) (written w' es) =
      subst (λ (n : ℕ). IsAt b n (written w' es)) (sym len)
        (IsAt-next {p = b} enc (written w' es) h0) in
    let whole' : all ≡ (done ++ e ∷ []) ++ es = whole ∙ sym (append_assoc done (e ∷ []) es) in
    let pts' : All (Point b all) w'.restarts = elim (Option-cases (shared_with w key)) [
      | inl n ↦
          let p : Point b all (length w.buf) = record {
            pre = done;
            first = e;
            post = es;
            whole = whole;
            reads =
                Reads-written (e ∷ es) w b (length w.buf) [] small storable
                  (Continues-restart w key [] n) h;
          } in
          subst (All (Point b all)) (sym (buffered-restart w key e n))
            (All-append (Point b all) w.restarts (length w.buf ∷ []) pts (p, tt))
      | inr (n, q) ↦ subst (All (Point b all)) (sym (buffered-shared w key e n q)) pts
    ] in
    restarts-Points es w' b (done ++ e ∷ []) all key small storable.1 last h' whole' pts'

first-kept :
    (es : List Entry) (w : Writer) (r : ℕ) (rs : List ℕ)
    → w.restarts ≡ r ∷ rs
    → (rs' : List ℕ) × ((fill w es).restarts ≡ r ∷ rs')
unfolding fill
first-kept [] w r rs h = (rs, h)
first-kept (e ∷ es) w r rs h =
    let key = content e.key in
    elim (Option-cases (shared_with w key)) [
      | inl n ↦
          first-kept es (buffered w key e) r (rs ++ length w.buf ∷ [])
            (buffered-restart w key e n ∙ ap (λ (t : List ℕ). t ++ length w.buf ∷ []) h)
      | inr (n, q) ↦ first-kept es (buffered w key e) r rs (buffered-shared w key e n q ∙ h)
    ]

-- A writer that has put nothing into its block.
pub record IsFresh (w : Writer) : Type 0 where
  pub empty : w.buf ≡ []
  pub none_yet : w.block_entries ≡ 0
  pub no_points : w.restarts ≡ []

-- The restart points of a block that was filled from its start are right.
pub fill-Points :
    (w : Writer) (e : Entry) (es : List Entry)
    → IsFresh w
    → All IsStorable (e ∷ es)
    → length (fill w (e ∷ es)).buf < 2 ^ 63
    → Points (fill w (e ∷ es)).buf (fill w (e ∷ es)).restarts (e ∷ es)
fill-Points w e es fresh storable small =
    let b = (fill w (e ∷ es)).buf in
    let none_here = shared_with-restart w fresh.none_yet in
    let whole : b ≡ written w (e ∷ es) =
      fill-written (e ∷ es) w ∙ ap (λ (t : Bytes). t ++ written w (e ∷ es)) fresh.empty in
    let start : IsAt b 0 (written w (e ∷ es)) = record { tail = whole; within = omega arith } in
    let start' : IsAt b (length w.buf) (written w (e ∷ es)) =
      subst (λ (n : ℕ). IsAt b n (written w (e ∷ es))) (sym (ap length fresh.empty)) start in
    let goes : Continues [] w =
      Continues-restart w (content e.key) [] (none_here (content e.key)) in
    let all =
      restarts-Points (e ∷ es) w b [] (e ∷ es) [] small storable goes start' refl
        (subst (All (Point b (e ∷ es))) (sym fresh.no_points) tt) in
    let f = first-kept es (buffered w (content e.key) e) (length w.buf) [] (
      buffered-restart w (content e.key) e (none_here (content e.key))
      ∙ ap (λ (t : List ℕ). t ++ length w.buf ∷ []) fresh.no_points) in
    let points : (fill w (e ∷ es)).restarts ≡ length w.buf ∷ f.0 = unfold fill in f.1 in
    record {
      each = all;
      first = ap (λ (t : List ℕ). get_or t 0 0) points ∙ ap length fresh.empty;
      start = Reads-written (e ∷ es) w b 0 [] small storable goes start;
      some_point = omega (arith, ap length points);
    }

-- At most one restart point for each entry.
pub length-restarts :
    (es : List Entry) (w : Writer) → length (fill w es).restarts ≤ length w.restarts + length es
unfolding fill
length-restarts [] w = omega arith
length-restarts (e ∷ es) w =
    let key = content e.key in
    let ih = length-restarts es (buffered w key e) in
    elim (Option-cases (shared_with w key)) [
      | inl n ↦ omega (
        arith,
        ih,
        ap length (buffered-restart w key e n),
        length-append w.restarts (length w.buf ∷ []),
      )
      | inr (n, q) ↦ omega (arith, ih, ap length (buffered-shared w key e n q))
    ]
