-- ===== src/Sstable/Entries.antt =====
-- Reading back one entry of a block.
use go_durable_engine.Prelude.{
  ℕ, zero, suc, ◌+◌, ◌-◌, ◌^◌, ◌≤◌, ◌<◌, ◌≡◌, ◌≢◌, refl, ap, ◌∙◌, Bool, true, false, List, [], ◌∷◌,
  ◌++◌, append_assoc, arith, length, length-append, length-drop, get_or, take, drop,
  take-append-drop, ltb, leb, ◌==◌, ok, Bytes, IsUint64,
}
use go_durable_engine.Prelude.Pieces.{IsAt, IsAt-next, IsAt-take}
use go_durable_engine.Varint.{encode_uint64, decode_uint64}
use go_durable_engine.Varint.Encode.{encode_uint64-onto, length-encode_uint64}
use go_durable_engine.Varint.RoundTrip.{decode-encode}
use go_durable_engine.Sstable.{flag_delete}
use go_durable_engine.Sstable.Writer.{encode_entry, flag_of}
use go_durable_engine.Sstable.Reader.{BlockIter, number, is_beyond, entry_at, next_entry, next}

-- The pieces of an entry.
abbrev pieces : ℕ → Bytes → Bytes → ℕ → Bool → Bytes
pieces shared key value seq deleted =
    encode_uint64 [] shared
    ++ (encode_uint64 [] (length key - shared)
        ++ (encode_uint64 [] (length value)
            ++ (encode_uint64 [] seq ++ (flag_of deleted ∷ (drop shared key ++ value)))))

pub encode_entry-pieces :
    (shared : ℕ) (key value : Bytes) (seq : ℕ) (deleted : Bool)
    → IsUint64 (length key)
    → IsUint64 (length value)
    → IsUint64 seq
    → encode_entry shared key value seq deleted ≡ pieces shared key value seq deleted
unfolding encode_entry
encode_entry-pieces shared key value seq deleted hk hv hs =
    let e1 = encode_uint64 [] shared in
    let e2 = e1 ++ encode_uint64 [] (length key - shared) in
    let e3 = e2 ++ encode_uint64 [] (length value) in
    rw
      (
        encode_uint64-onto e1 (length key - shared) (omega arith),
        encode_uint64-onto e2 (length value) hv,
        encode_uint64-onto e3 seq hs,
      )
      (simp append_assoc)

number-encode :
    (it : BlockIter) (off x : ℕ) (rest : Bytes)
    → IsUint64 x
    → IsAt it.block off (encode_uint64 [] x ++ rest)
    → number it off ≡ ok (x, off + length (encode_uint64 [] x))
unfolding number
number-encode it off x rest hx h =
    let e = ap decode_uint64 h.tail ∙ decode-encode x rest hx in rw (e, number)

cons_not_nil : (c : ℕ) (rest : Bytes) → [] ≢ c ∷ rest
cons_not_nil c rest e = cc

get_or-drop : (p : Bytes) (off c : ℕ) (rest : Bytes) → drop off p ≡ c ∷ rest → get_or p off 0 ≡ c
get_or-drop [] zero c rest e = absurd (cons_not_nil c rest e)
get_or-drop [] (suc off) c rest e = absurd (cons_not_nil c rest e)
get_or-drop (x ∷ p) zero c rest e = ap (λ (t : List ℕ). get_or t 0 0) e
get_or-drop (x ∷ p) (suc off) c rest e = get_or-drop p off c rest e

get_or-IsAt : (p : Bytes) (off c : ℕ) (rest : Bytes) → IsAt p off (c ∷ rest) → get_or p off 0 ≡ c
get_or-IsAt p off c rest h = get_or-drop p off c rest h.tail

-- The numbers of an entry, its flag and its bytes, where they stand in the block.
record Placed (it : BlockIter) (shared : ℕ) (key value : Bytes) (seq : ℕ) (deleted : Bool)
    (rest : Bytes) : Type 0 where
  pub o1 : ℕ
  pub o2 : ℕ
  pub o3 : ℕ
  pub o4 : ℕ
  pub n1 : number it it.off ≡ ok (shared, o1)
  pub n2 : number it o1 ≡ ok (length key - shared, o2)
  pub n3 : number it o2 ≡ ok (length value, o3)
  pub n4 : number it o3 ≡ ok (seq, o4)
  pub flag : get_or it.block o4 0 ≡ flag_of deleted
  pub key_at : take (length key - shared) (drop (o4 + 1) it.block) ≡ drop shared key
  pub value_at : take (length value) (drop (o4 + 1 + (length key - shared)) it.block) ≡ value
  pub end : IsAt it.block (o4 + 1 + (length key - shared) + length value) rest

place :
    (it : BlockIter) (shared : ℕ) (key value : Bytes) (seq : ℕ) (deleted : Bool) (rest : Bytes)
    → IsUint64 (length key)
    → IsUint64 (length value)
    → IsUint64 seq
    → shared ≤ length key
    → IsAt it.block it.off (pieces shared key value seq deleted ++ rest)
    → Placed it shared key value seq deleted rest
place it shared key value seq deleted rest hk hv hs le h =
    let b = it.block in
    let t5 = value ++ rest in
    let t4 = drop shared key ++ t5 in
    let t3 = flag_of deleted ∷ t4 in
    let v1 = encode_uint64 [] shared in
    let v2 = encode_uint64 [] (length key - shared) in
    let v3 = encode_uint64 [] (length value) in
    let v4 = encode_uint64 [] seq in
    let flat : pieces shared key value seq deleted ++ rest ≡ v1 ++ (v2 ++ (v3 ++ (v4 ++ t3))) =
      simp append_assoc in
    let h0 : IsAt b it.off (v1 ++ (v2 ++ (v3 ++ (v4 ++ t3)))) = rw flat at h in
    let h1 = IsAt-next {p = b} v1 (v2 ++ (v3 ++ (v4 ++ t3))) h0 in
    let h2 = IsAt-next {p = b} v2 (v3 ++ (v4 ++ t3)) h1 in
    let h3 = IsAt-next {p = b} v3 (v4 ++ t3) h2 in
    let h4 = IsAt-next {p = b} v4 t3 h3 in
    let h5 = IsAt-next {p = b} (flag_of deleted ∷ []) t4 h4 in
    let h6 = IsAt-next {p = b} (drop shared key) t5 h5 in
    let n = length-drop shared key in
    let h6' = rw n at h6 in
    record {
      o1 = it.off + length v1;
      o2 = it.off + length v1 + length v2;
      o3 = it.off + length v1 + length v2 + length v3;
      o4 = it.off + length v1 + length v2 + length v3 + length v4;
      n1 = number-encode it it.off shared (v2 ++ (v3 ++ (v4 ++ t3))) (omega arith) h0;
      n2 = number-encode it _ (length key - shared) (v3 ++ (v4 ++ t3)) (omega arith) h1;
      n3 = number-encode it _ (length value) (v4 ++ t3) hv h2;
      n4 = number-encode it _ seq t3 hs h3;
      flag = get_or-IsAt b _ (flag_of deleted) t4 h4;
      key_at = rw n at (IsAt-take {p = b} (drop shared key) t5 h5);
      value_at = IsAt-take {p = b} value rest h6';
      end = IsAt-next {p = b} value rest h6';
    }

abbrev pub read_entry : BlockIter → ℕ → Bytes → Bytes → ℕ → Bool → BlockIter
read_entry it off key value seq deleted = record it {
  off = off;
  key = key;
  value = value;
  seq = seq;
  deleted = deleted;
  valid = true;
}

flag_of-deleted : (deleted : Bool) → (flag_of deleted == flag_delete) ≡ deleted
flag_of-deleted true = refl
flag_of-deleted false = refl

next_entry-Placed :
    (it : BlockIter) (shared : ℕ) (key value : Bytes) (seq : ℕ) (deleted : Bool) (rest : Bytes)
    → (p : Placed it shared key value seq deleted rest) → length it.block < 2 ^ 63
    → shared ≤ length it.key
    → take shared it.key ≡ take shared key
    → next_entry it
      ≡ ok (read_entry it (p.o4 + 1 + (length key - shared) + length value) key value seq deleted)
unfolding next_entry entry_at
next_entry-Placed it shared key value seq deleted rest p small le same =
    let sum = p.o4 + 1 + (length key - shared) + length value in
    let g1 : ltb p.o4 (length it.block) ≡ true = ground (arith, p.end.within) in
    let g2 : is_beyond (length it.block) sum ≡ false = ground (arith, p.end.within) in
    let g3 : leb sum (length it.block) ≡ true = ground (arith, p.end.within) in
    let g4 : leb shared (length it.key) ≡ true = ground arith in
    rw (p.n1) (
      rw (p.n2) (
        rw (p.n3) (
          rw (p.n4) (
            rw (g1) (
              rw
                (
                  g2,
                  g3,
                  g4,
                  p.flag,
                  flag_of-deleted deleted,
                  p.key_at,
                  p.value_at,
                  same,
                  take-append-drop shared key,
                )
                refl)))))

-- The same rest of a slice stands at one offset.
IsAt-unique : (p : Bytes) (a b : ℕ) (rest : Bytes) → IsAt p a rest → IsAt p b rest → a ≡ b
IsAt-unique p a b rest h g = omega (
  arith,
  h.within,
  g.within,
  ap length h.tail,
  ap length g.tail,
  length-drop a p,
  length-drop b p,
)

-- An entry that starts with the current key's first `shared` bytes is read back by `Next`, and the
-- iterator then stands behind it.
pub next-encode_entry :
    (it : BlockIter) (shared : ℕ) (key value : Bytes) (seq : ℕ) (deleted : Bool) (rest : Bytes)
    → length it.block < 2 ^ 63
    → IsUint64 seq
    → shared ≤ length key
    → shared ≤ length it.key
    → take shared it.key ≡ take shared key
    → IsAt it.block it.off (encode_entry shared key value seq deleted ++ rest)
    → IsUint64 (length key)
    → IsUint64 (length value)
    → (next it
        ≡ ok (
            read_entry it
              (it.off + length (encode_entry shared key value seq deleted))
              key
              value
              seq
              deleted))
unfolding next
next-encode_entry it shared key value seq deleted rest small hs le le' same h hk hv =
    let e = encode_entry-pieces shared key value seq deleted hk hv hs in
    let h' : IsAt it.block it.off (pieces shared key value seq deleted ++ rest) = rw e at h in
    let p = place it shared key value seq deleted rest hk hv hs le h' in
    let behind = IsAt-next {p = it.block} (encode_entry shared key value seq deleted) rest h in
    let tail =
      encode_uint64 [] (length key - shared)
      ++ (encode_uint64 [] (length value)
          ++ (encode_uint64 [] seq ++ (flag_of deleted ∷ (drop shared key ++ value)))) in
    let some_bytes : 0 < length (encode_entry shared key value seq deleted) = omega (
      arith,
      ap length e,
      length-append (encode_uint64 [] shared) tail,
      (length-encode_uint64 shared (omega arith)).0,
    ) in
    let r = next_entry-Placed it shared key value seq deleted rest p small le' same in
    let inside : leb (length it.block) it.off ≡ false = ground (arith, behind.within, some_bytes) in
    let off : p.o4 + 1 + (length key - shared) + length value
        ≡ it.off + length (encode_entry shared key value seq deleted) =
      IsAt-unique it.block _ _ rest p.end behind in
    rw (inside, r, off) refl
