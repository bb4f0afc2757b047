-- ===== src/Sstable/Adding.antt =====
-- Which sequences of entries the writer of a table accepts.
use mathlib.Core.Path.{subst}
use go_durable_engine.Prelude.{
  ◌≡◌, ◌↔◌, inl, inr, refl, sym, ap, ◌∙◌, Bool, true, false, Bool-cases, Option-cases, none, some,
  List, [], ◌∷◌, length, leb, ◌==◌, if◌then◌else◌, Result, ok, err, arith, Bytes,
}
use go_durable_engine.Bytes.{Slice}
use go_durable_engine.Bytes.Order.{Before, is_neg-Before, Before-is_neg}
use go_durable_engine.Sstable.{Error, Entry}
use go_durable_engine.Sstable.Writer.{Writer, is_before, flush_block, buffered, add, add_entries}

-- The key does not sort before the last one, where there is one.
abbrev pub IsNotBefore : Bytes → Slice → Type 0
IsNotBefore key none = Unit {0}
IsNotBefore key (some last) = ¬ Before key last

is_before-false : (key : Bytes) (last : Slice) → is_before key last ≡ false → IsNotBefore key last
unfolding is_before
is_before-false key none e = tt
is_before-false key (some last) e = λ lt. (let t = Before-is_neg key last lt in cc)

is_before-true : (key : Bytes) (last : Slice) → is_before key last ≡ true → ¬ IsNotBefore key last
unfolding is_before
is_before-true key none e n = cc
is_before-true key (some last) e n = n (is_neg-Before key last e)

-- The keys are there, and none is before the one in front of it, nor the first before `last`.
unfoldable pub InOrder : Slice → List Entry → Type 0
InOrder last [] = Unit {0}
InOrder last (e ∷ es) = (key : Bytes) × (e.key ≡ some key) × IsNotBefore key last × InOrder e.key es

flush_block-last_key : (w : Writer) → (flush_block w).last_key ≡ w.last_key
unfolding flush_block
flush_block-last_key w = elim (Bool-cases (length w.buf == 0)) [
  | inl t ↦ rw t refl
  | inr f ↦ rw f refl
]

flush_block-closed : (w : Writer) → (flush_block w).closed ≡ w.closed
unfolding flush_block
flush_block-closed w = elim (Bool-cases (length w.buf == 0)) [
  | inl t ↦ rw t refl
  | inr f ↦ rw f refl
]

-- The writer behind an entry that was accepted.
abbrev pub after : Writer → Bytes → Entry → Writer
after w key e =
    if leb (buffered w key e).block_size (length (buffered w key e).buf)
    then flush_block (buffered w key e)
    else buffered w key e

pub after-last_key : (w : Writer) (key : Bytes) (e : Entry) → (after w key e).last_key ≡ some key
after-last_key w key e =
    let b = buffered w key e in
    let k : b.last_key ≡ some key = unfold buffered in refl in
    elim (Bool-cases (leb b.block_size (length b.buf))) [
      | inl t ↦
          ap (λ (c : Bool). (if c then flush_block b else b).last_key) t
          ∙ flush_block-last_key b
          ∙ k
      | inr f ↦ ap (λ (c : Bool). (if c then flush_block b else b).last_key) f ∙ k
    ]

pub after-closed : (w : Writer) (key : Bytes) (e : Entry) → (after w key e).closed ≡ w.closed
after-closed w key e =
    let b = buffered w key e in
    let k : b.closed ≡ w.closed = unfold buffered in refl in
    elim (Bool-cases (leb b.block_size (length b.buf))) [
      | inl t ↦
          ap (λ (c : Bool). (if c then flush_block b else b).closed) t ∙ flush_block-closed b ∙ k
      | inr f ↦ ap (λ (c : Bool). (if c then flush_block b else b).closed) f ∙ k
    ]

module _ (w : Writer) (e : Entry) (is_open : w.closed ≡ false) where
  -- What is done with the key of an open writer's entry.
  abbrev keyed : Slice → Result Error Writer
  keyed none = err Error.invalid
  keyed (some key) = if is_before key w.last_key then err Error.out_of_order else ok (after w key e)

  add-nil : e.key ≡ none → add w e ≡ err Error.invalid
  unfolding add
  add-nil k = rw (is_open, k) refl

  add-before :
      (key : Bytes)
      → e.key ≡ some key
      → is_before key w.last_key ≡ true
      → add w e ≡ err Error.out_of_order
  unfolding add
  add-before key k b = rw (is_open, k, b) refl

  pub add-after :
      (key : Bytes)
      → e.key ≡ some key
      → is_before key w.last_key ≡ false
      → add w e ≡ ok (after w key e)
  unfolding add
  add-after key k b =
      ap (λ (c : Bool). if c then err Error.closed else keyed e.key) is_open
      ∙ ap keyed k
      ∙ ap (λ (c : Bool). if c then err Error.out_of_order else ok (after w key e)) b

add_entries-err :
    (w : Writer) (e : Entry) (es : List Entry) (x : Error)
    → add w e ≡ err x
    → add_entries w (e ∷ es) ≡ err x
unfolding add_entries
add_entries-err w e es x q = rw (q, add_entries)

pub add_entries-ok :
    (w w' : Writer) (e : Entry) (es : List Entry)
    → add w e ≡ ok w'
    → add_entries w (e ∷ es) ≡ add_entries w' es
unfolding add_entries
add_entries-ok w w' e es q =
    ap
      (λ (r : Result Error Writer). elim r as (λ x. Result Error Writer) [
        | err x ↦ err x
        | ok v ↦ add_entries v es
      ])
      q

InOrder-head :
    (last : Slice) (e : Entry) (es : List Entry)
    → InOrder last (e ∷ es)
    → (key : Bytes) × (e.key ≡ some key) × IsNotBefore key last × InOrder e.key es
unfolding InOrder
InOrder-head last e es h = h

InOrder-cons :
    (last : Slice) (e : Entry) (es : List Entry)
    → ((key : Bytes) × (e.key ≡ some key) × IsNotBefore key last × InOrder e.key es)
    → InOrder last (e ∷ es)
unfolding InOrder
InOrder-cons last e es h = h

some_injective : {a b : Bytes} → some a ≡ some b → a ≡ b
some_injective h = ground arith

-- An open writer accepts a sequence of entries exactly when every entry has a key and no key is
-- before the one that was added before it; equal keys are accepted. Otherwise it fails.
pub add_entries_iff :
    (es : List Entry) (w : Writer)
    → w.closed ≡ false
    → ((w' : Writer) × (add_entries w es ≡ ok w')) ↔ InOrder w.last_key es
add_entries_iff [] w is_open = unfold InOrder add_entries in (λ h. tt, λ h. (w, refl))
add_entries_iff (e ∷ es) w is_open = elim (Option-cases e.key) [
  | inl k ↦
      let bad = add_entries-err w e es Error.invalid (add-nil w e is_open k) in
      (λ h. (let r = sym bad ∙ h.1 in cc), λ h. (let q = (InOrder-head w.last_key e es h).1 in cc))
  | inr (key, k) ↦ elim (Bool-cases (is_before key w.last_key)) [
    | inl b ↦
        let bad = add_entries-err w e es Error.out_of_order (add-before w e is_open key k b) in
        (
          λ h. (let r = sym bad ∙ h.1 in cc),
          λ h.
              (let (key', q, o, rest) = InOrder-head w.last_key e es h in
                let same : key' ≡ key = some_injective (sym q ∙ k) in
                let o' : IsNotBefore key w.last_key =
                  subst (λ (x : Bytes). IsNotBefore x w.last_key) same o in
                absurd (is_before-true key w.last_key b o')),
        )
    | inr b ↦
        let w1 = after w key e in
        let good = add_entries-ok w w1 e es (add-after w e is_open key k b) in
        let ih = add_entries_iff es w1 (after-closed w key e ∙ is_open) in
        let last : w1.last_key ≡ e.key = after-last_key w key e ∙ sym k in
        (
          λ h. InOrder-cons w.last_key e es (
            key,
            k,
            is_before-false key w.last_key b,
            subst (λ l. InOrder l es) last (ih.0 (h.0, sym good ∙ h.1)),
          ),
          λ h.
              (let (key', q, o, rest) = InOrder-head w.last_key e es h in
                let r = ih.1 (subst (λ l. InOrder l es) (sym last) rest) in (r.0, good ∙ r.1)),
        )
  ]
]
