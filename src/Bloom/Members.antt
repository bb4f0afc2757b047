-- ===== src/Bloom/Members.antt =====
-- A Bloom filter never denies a key that was added to it.
use go_durable_engine.Prelude.{
  ℕ, ◌+◌, ◌/◌, ◌%◌, ◌^◌, ◌≤◌, ◌≡◌, refl, sym, ap, ◌∙◌, inl, inr, true, false, Bool-cases, some,
  List, [], ◌∷◌, arith, length, ◌==◌, Bytes, All,
}
use go_durable_engine.Bloom.{Filter, add_loop, add, test_loop, may_contain, add_all, hash_pair}
use go_durable_engine.Bloom.Bits.{Covers, IsSized, add_loop-Added, test_loop-true, test_loop-Covers}

-- The second filter has the parameters of the first and at least its bits.
pub record Grown (f f' : Filter) : Type 0 where
  pub same_m : f'.m ≡ f.m
  pub same_k : f'.k ≡ f.k
  pub sized : IsSized f'
  pub covers : Covers f.bits f'.bits

may_contain-true :
    (f : Filter) (key : Bytes)
    → test_loop f.k 0 (hash_pair key) f.m f.bits ≡ some true
    → may_contain f key ≡ some true
unfolding may_contain
may_contain-true f key e = elim (Bool-cases (f.m == 0)) [ inl t ↦ rw t refl | inr n ↦ rw n e ]

may_contain-Grown :
    (f f' : Filter) (key : Bytes)
    → Grown f f'
    → may_contain f key ≡ some true
    → may_contain f' key ≡ some true
unfolding may_contain
may_contain-Grown f f' key g e = elim (Bool-cases (f.m == 0)) [
  | inl t ↦ (let t' : (f'.m == 0) ≡ true = ap (λ (x : ℕ). x == 0) g.same_m ∙ t in rw t' refl)
  | inr n ↦
      let e' : test_loop f.k 0 (hash_pair key) f.m f.bits ≡ some true = sym (rw n refl) ∙ e in
      may_contain-true f' key (
        ap (λ (x : ℕ). test_loop x 0 (hash_pair key) f'.m f'.bits) g.same_k
        ∙ ap (λ (x : ℕ). test_loop f.k 0 (hash_pair key) x f'.bits) g.same_m
        ∙ test_loop-Covers f.k 0 (hash_pair key) f.m f.bits f'.bits g.covers e')
]

record Member (f : Filter) (key : Bytes) : Type 0 where
  pub after : Filter
  pub done : add f key ≡ some after
  pub grown : Grown f after
  pub here : may_contain after key ≡ some true

pub add-some :
    (f : Filter) (key bits : Bytes)
    → (f.m == 0) ≡ false
    → add_loop f.k 0 (hash_pair key) f.m f.bits ≡ some bits
    → add f key ≡ some (record f { bits = bits; n_added = (f.n_added + 1) % 2 ^ 64 })
unfolding add
add-some f key bits n e = rw (n, e, add)

add-Member : (f : Filter) (key : Bytes) → IsSized f → Member f key
add-Member f key room = elim (Bool-cases (f.m == 0)) [
  | inl t ↦ record {
    after = f;
    done = unfold add in rw t refl;
    grown = record { same_m = refl; same_k = refl; sized = room; covers = λ i e. e };
    here = unfold may_contain in rw t refl;
  }
  | inr n ↦
      let r = add_loop-Added f.k 0 (hash_pair key) f.m f.bits (ground arith) room in
      record {
        after = record f { bits = r.bits; n_added = (f.n_added + 1) % 2 ^ 64 };
        done = add-some f key r.bits n r.done;
        grown = record {
          same_m = refl;
          same_k = refl;
          sized = omega (arith, r.same);
          covers = r.covers;
        };
        here =
            may_contain-true (record f { bits = r.bits; n_added = (f.n_added + 1) % 2 ^ 64 }) key
              (test_loop-true f.k 0 (hash_pair key) f.m r.bits r.all_set);
      }
]

record Members (f : Filter) (keys : List Bytes) : Type 0 where
  pub after : Filter
  pub done : add_all f keys ≡ some after
  pub grown : Grown f after
  pub here : All (λ key. may_contain after key ≡ some true) keys

pub add_all-some :
    (f f' : Filter) (key : Bytes) (keys : List Bytes)
    → add f key ≡ some f'
    → add_all f (key ∷ keys) ≡ add_all f' keys
unfolding add_all
add_all-some f f' key keys e = rw (e, add_all)

Grown-trans : (f g h : Filter) → Grown f g → Grown g h → Grown f h
Grown-trans f g h a b = record {
  same_m = b.same_m ∙ a.same_m;
  same_k = b.same_k ∙ a.same_k;
  sized = b.sized;
  covers = λ i e. b.covers i (a.covers i e);
}

add_all-Members : (keys : List Bytes) (f : Filter) → IsSized f → Members f keys
add_all-Members [] f room = record {
  after = f;
  done = unfold add_all in refl;
  grown = record { same_m = refl; same_k = refl; sized = room; covers = λ i e. e };
  here = tt;
}
add_all-Members (key ∷ keys) f room =
    let a = add-Member f key room in
    let r = add_all-Members keys a.after a.grown.sized in
    record {
      after = r.after;
      done = add_all-some f a.after key keys a.done ∙ r.done;
      grown = Grown-trans f a.after r.after a.grown r.grown;
      here = (may_contain-Grown a.after r.after key r.grown a.here, r.here);
    }

-- Adding any keys to a filter whose bits fit its size never reads or writes out of range, each of
-- the keys is then reported as possibly there, and so is every key that was before.
pub add_all-may_contain :
    (f : Filter) (keys : List Bytes)
    → (f.m + 7) / 8 ≤ length f.bits
    → (f' : Filter) × (add_all f keys ≡ some f')
      × All (λ key. may_contain f' key ≡ some true) keys
      × ((key : Bytes) → may_contain f key ≡ some true → may_contain f' key ≡ some true)
add_all-may_contain f keys room =
    let r = add_all-Members keys f room in
    (r.after, r.done, r.here, λ key. may_contain-Grown f r.after key r.grown)
