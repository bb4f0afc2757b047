-- ===== src/Bloom/Built.antt =====
-- The filter that a builder builds: it can be stored, answers every key, and denies none of its own.
use mathlib.Core.Path.{subst}
use go_durable_engine.Prelude.{
  ℕ, ◌+◌, ◌/◌, ◌%◌, ◌^◌, ◌<◌, ◌≡◌, refl, sym, ap, ◌∙◌, Bool, true, false, Option, none, some, List,
  [], ◌∷◌, ◌++◌, arith, length, length-append, length-replicate, replicate, ◌==◌, if◌then◌else◌,
  Bytes, All,
}
use go_durable_engine.Bloom.{
  Filter, Builder, add, may_contain, add_all, hash_pair, build, magic, version, marshal_binary,
}
use go_durable_engine.Bytes.Endian.{le_bytes, length-le_bytes}
use go_durable_engine.Bloom.Bits.{IsSized, add_loop-Added, test_loop-some}
use go_durable_engine.Bloom.Members.{add-some, add_all-some, add_all-may_contain}
use go_durable_engine.Bloom.Codec.{IsMarshallable}

-- A filter with at least one bit, of a size that does not wrap.
pub record IsUsable (f : Filter) : Type 0 where
  pub storable : IsMarshallable f
  pub nonempty : 0 < f.m
  pub fits : f.m + 7 < 2 ^ 64

IsUsable-IsSized : (f : Filter) → IsUsable f → IsSized f
IsUsable-IsSized f u = omega (arith, u.storable.bits, u.fits)

pub may_contain-some :
    (f : Filter) (key : Bytes) → IsUsable f → (v : Bool) × (may_contain f key ≡ some v)
unfolding may_contain
may_contain-some f key u =
    let t : (f.m == 0) ≡ false = ground (arith, u.nonempty) in
    let r = test_loop-some f.k 0 (hash_pair key) f.m f.bits u.nonempty (IsUsable-IsSized f u) in
    (r.0, rw t r.1)

add-IsUsable :
    (f : Filter) (key : Bytes) → IsUsable f → (f' : Filter) × (add f key ≡ some f') × IsUsable f'
add-IsUsable f key u =
    let t : (f.m == 0) ≡ false = ground (arith, u.nonempty) in
    let a = add_loop-Added f.k 0 (hash_pair key) f.m f.bits u.nonempty (IsUsable-IsSized f u) in
    (
      record f { bits = a.bits; n_added = (f.n_added + 1) % 2 ^ 64 },
      add-some f key a.bits t a.done,
      record {
        storable = record {
          m = u.storable.m;
          k = u.storable.k;
          n_added = omega arith;
          bits = a.same ∙ u.storable.bits;
        };
        nonempty = u.nonempty;
        fits = u.fits;
      },
    )

add_all-IsUsable :
    (keys : List Bytes) (f : Filter)
    → IsUsable f
    → (f' : Filter) × (add_all f keys ≡ some f') × IsUsable f'
add_all-IsUsable [] f u = (f, unfold add_all in refl, u)
add_all-IsUsable (key ∷ keys) f u =
    let a = add-IsUsable f key u in
    let r = add_all-IsUsable keys a.0 a.2 in (r.0, add_all-some f a.0 key keys a.1 ∙ r.1, r.2)

-- What the sizes of a filter must be: at least one bit, and numbers that fit their fields.
abbrev pub AreSizes : (ℕ → ℕ × ℕ) → Type 0
AreSizes sizes = (n : ℕ) → (0 < (sizes n).0) × ((sizes n).0 + 7 < 2 ^ 64) × ((sizes n).1 < 2 ^ 32)

abbrev or_filter : Filter → Option Filter → Filter
or_filter d none = d
or_filter d (some f) = f

pub build-IsUsable :
    (sizes : ℕ → ℕ × ℕ) (b : Builder)
    → AreSizes sizes
    → (f : Filter) × (build sizes b ≡ some f)
      × IsUsable f
      × All (λ key. may_contain f key ≡ some true) b.keys
unfolding build
build-IsUsable sizes b good =
    let n = if length b.keys == 0 then 1 else length b.keys in
    let m = (sizes n).0 in
    let f0 : Filter = record {
      bits = replicate ((m + 7) % 2 ^ 64 / 8) 0;
      m = m;
      k = (sizes n).1;
      n_added = 0;
    } in
    let g = good n in
    let len = length-replicate {A = ℕ} ((m + 7) % 2 ^ 64 / 8) 0 in
    let u : IsUsable f0 = record {
      storable = record { m = omega (arith, g.1); k = g.2; n_added = omega arith; bits = len };
      nonempty = g.0;
      fits = g.1;
    } in
    let r = add_all-IsUsable b.keys f0 u in
    let s = add_all-may_contain f0 b.keys (IsUsable-IsSized f0 u) in
    let same : s.0 ≡ r.0 = ap (or_filter f0) (sym s.1 ∙ r.1) in
    (
      r.0,
      r.1,
      r.2,
      subst (λ (f : Filter). All (λ key. may_contain f key ≡ some true) b.keys) same s.2,
    )

-- The bytes of a stored filter.
pub length-marshal_binary : (f : Filter) → IsUsable f → length (marshal_binary f) < 2 ^ 62
unfolding marshal_binary
length-marshal_binary f u =
    let t4 = le_bytes 8 f.n_added ++ f.bits in
    let t3 = le_bytes 4 f.k ++ t4 in
    let t2 = le_bytes 8 f.m ++ t3 in
    omega (
      arith,
      u.fits,
      u.storable.bits,
      length-append (le_bytes 4 magic) (version ∷ t2),
      length-le_bytes 4 magic,
      length-append (le_bytes 8 f.m) t3,
      length-le_bytes 8 f.m,
      length-append (le_bytes 4 f.k) t4,
      length-le_bytes 4 f.k,
      length-append (le_bytes 8 f.n_added) f.bits,
      length-le_bytes 8 f.n_added,
    )
