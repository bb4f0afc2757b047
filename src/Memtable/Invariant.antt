-- ===== src/Memtable/Invariant.antt =====
-- What the skip list keeps true of its heap, and the entries that it stands for.
use mathlib.Core.Path.{subst}
use Prim.Native.Nat.{Ordering}
use go_durable_engine.Prelude.{
  ℕ, zero, suc, ◌≤◌, ◌<◌, ◌≡◌, refl, sym, ap, ◌∙◌, inl, inr, true, false, Bool-cases, Option, none,
  some, List, [], ◌∷◌, ◌++◌, arith, length, ltb, map, Bytes, All,
}
use go_durable_engine.Bytes.{compare, is_neg}
use go_durable_engine.Memtable.{Entry, Heap, SkipList, max_level, key_at, collect}
use go_durable_engine.Memtable.Search.{
  first_tall, IsLinked, AreLinked, AreDistinct, AreBelow, AreNotBelow,
}
use go_durable_engine.Memtable.Contents.{
  key_of, IsAscending, total_bytes, LiesNotBelow, Before-not_below,
}

abbrev pub entries : Heap → List ℕ → List Entry
entries h ids = map (λ q. (h q).entry) ids

abbrev pub HaveLevels : Heap → ℕ → List ℕ → Type 0
HaveLevels h level ids = All (λ q. (0 < (h q).height) × ((h q).height ≤ level)) ids

-- `ids` are the nodes behind the head, in the order of level 0.
pub record IsSkipList (s : SkipList) (ids : List ℕ) : Type 0 where
  pub links : IsLinked s.heap s.head ids
  pub linked : AreLinked s.heap ids
  pub ascending : IsAscending (entries s.heap ids)
  pub distinct : AreDistinct (s.head ∷ ids)
  pub allocated : All (λ q. q < s.fresh) (s.head ∷ ids)
  pub heights : HaveLevels s.heap s.level ids
  pub full : (s.heap s.head).height ≡ max_level
  pub low : 0 < s.level
  pub high : s.level ≤ max_level
  pub room : length ids < s.fresh
  pub size : s.size ≡ length ids
  pub bytes : s.bytes ≡ total_bytes (entries s.heap ids)

-- The skip list is well formed and holds these entries.
pub record Represents (s : SkipList) (es : List Entry) : Type 0 where
  pub ids : List ℕ
  pub ok : IsSkipList s ids
  pub contents : entries s.heap ids ≡ es

pub entries-append :
    (h : Heap) (xs ys : List ℕ) → entries h (xs ++ ys) ≡ entries h xs ++ entries h ys
entries-append h [] ys = refl
entries-append h (x ∷ xs) ys = ap (λ (t : List Entry). (h x).entry ∷ t) (entries-append h xs ys)

pub entries-All :
    (P : Entry → Type 0) (h : Heap) (ids : List ℕ)
    → All (λ q. P (h q).entry) ids
    → All P (entries h ids)
entries-All P h [] all = tt
entries-All P h (x ∷ xs) all = (all.0, entries-All P h xs all.1)

entries-All-conv :
    (P : Entry → Type 0) (h : Heap) (ids : List ℕ)
    → All P (entries h ids)
    → All (λ q. P (h q).entry) ids
entries-All-conv P h [] all = tt
entries-All-conv P h (x ∷ xs) all = (all.0, entries-All-conv P h xs all.1)

pub AreLinked-behind : (h : Heap) (xs ys : List ℕ) → AreLinked h (xs ++ ys) → AreLinked h ys
AreLinked-behind h [] ys linked = linked
AreLinked-behind h (x ∷ xs) ys linked = AreLinked-behind h xs ys linked.1

-- The nodes in front of the place of a key, and those from there on.
pub record Cut (s : SkipList) (key : Bytes) (es : List Entry) : Type 0 where
  pub pre : List ℕ
  pub post : List ℕ
  pub ok : IsSkipList s (pre ++ post)
  pub below : AreBelow s.heap key pre
  pub above : AreNotBelow s.heap key post
  pub contents : entries s.heap pre ++ entries s.heap post ≡ es

all_above :
    (h : Heap) (key : Bytes) (y : ℕ) (es : List Entry)
    → is_neg (compare (key_at h y) key) ≡ false
    → All (λ e. compare (key_at h y) (key_of e) ≡ Ordering.lt) es
    → LiesNotBelow key es
all_above h key y [] f all = tt
all_above h key y (e ∷ es) f all =
    (Before-not_below (key_at h y) (key_of e) key all.0 f, all_above h key y es f all.1)

record CutIds (h : Heap) (key : Bytes) (ids : List ℕ) : Type 0 where
  pub pre : List ℕ
  pub post : List ℕ
  pub whole : ids ≡ pre ++ post
  pub below : AreBelow h key pre
  pub above : AreNotBelow h key post

cut_ids : (h : Heap) (key : Bytes) (ids : List ℕ) → IsAscending (entries h ids) → CutIds h key ids
cut_ids h key [] s = record { pre = []; post = []; whole = refl; below = tt; above = tt }
cut_ids h key (y ∷ ys) s = elim (Bool-cases (is_neg (compare (key_at h y) key))) [
  | inl t ↦
      let r = cut_ids h key ys s.1 in
      record {
        pre = y ∷ r.pre;
        post = r.post;
        whole = ap (λ (t : List ℕ). y ∷ t) r.whole;
        below = (t, r.below);
        above = r.above;
      }
  | inr f ↦ record {
    pre = [];
    post = y ∷ ys;
    whole = refl;
    below = tt;
    above = (
      f,
      entries-All-conv (λ e. is_neg (compare (key_of e) key) ≡ false) h ys
          (all_above h key y (entries h ys) f s.0),
    );
  }
]

pub cut : (s : SkipList) (key : Bytes) (es : List Entry) → Represents s es → Cut s key es
cut s key es rep =
    let c = cut_ids s.heap key rep.ids rep.ok.ascending in
    record {
      pre = c.pre;
      post = c.post;
      ok = subst (IsSkipList s) c.whole rep.ok;
      below = c.below;
      above = c.above;
      contents =
          sym (entries-append s.heap c.pre c.post)
          ∙ ap (entries s.heap) (sym c.whole)
          ∙ rep.contents;
    }

abbrev pub first_id : List ℕ → Option ℕ
first_id [] = none
first_id (x ∷ xs) = some x

pub first_tall-zero :
    (h : Heap) (level : ℕ) (ids : List ℕ)
    → HaveLevels h level ids
    → first_tall h 0 ids ≡ first_id ids
first_tall-zero h level [] have = refl
first_tall-zero h level (y ∷ ys) have =
    let t : ltb 0 (h y).height ≡ true = ground (arith, have.0) in rw t refl

pub collect_lem :
    (h : Heap) (level fuel : ℕ) (ids : List ℕ)
    → AreLinked h ids
    → HaveLevels h level ids
    → length ids < fuel
    → collect fuel h (first_id ids) ≡ entries h ids
unfolding collect
collect_lem h level zero ids linked have lt = absurd (omega arith)
collect_lem h level (suc fuel) [] linked have lt = refl
collect_lem h level (suc fuel) (y ∷ ys) linked have lt =
    let e : (h y).next 0 ≡ first_id ys = linked.0 0 have.0.0 ∙ first_tall-zero h level ys have.1 in
    ap (λ (t : List Entry). (h y).entry ∷ t)
      (ap (collect fuel h) e ∙ collect_lem h level fuel ys linked.1 have.1 (omega arith))
