-- ===== src/Sstable/Progress.antt =====
-- Each round of the block iterator moves on, so that its loops end.
use mathlib.Core.Path.{subst}
use go_durable_engine.Prelude.{
  ℕ, zero, suc, ◌+◌, ◌-◌, ◌≤◌, ◌<◌, ◌≡◌, refl, ap, ◌⊎◌, inl, inr, true, false, [], ◌∷◌, get_or,
  ◌&&◌, Bool-cases, arith, length, drop, ltb, leb, Result, ok, err, ◌>>=◌, Result-cases, Bytes,
}
use go_durable_engine.Bytes.{compare, is_neg}
use go_durable_engine.Varint.{decode_uint64}
use go_durable_engine.Sstable.{Error}
use go_durable_engine.Sstable.Reader.{
  BlockIter, Exit, number, entry_at, is_beyond, next_entry, next, jump, skip_below, restart_search,
  seek,
}

-- An iterator that is valid behind `it` has moved on within the same block.
abbrev Moves : BlockIter → Result Exit BlockIter → Type 0
Moves it (ok it') = (it.off < it'.off) × (it'.off ≤ length it.block) × (it'.block ≡ it.block)
Moves it (err (ok it')) = it'.valid ≡ false
Moves it (err (err e)) = Unit {0}

Moves-bind :
    {A : Type 0} (it : BlockIter) (m : Result Exit A) (f : A → Result Exit BlockIter)
    → ((x : Exit) → m ≡ err x → Moves it (err x))
    → ((a : A) → m ≡ ok a → Moves it (f a))
    → Moves it (m >>= f)
Moves-bind it (ok a) f bad good = good a refl
Moves-bind it (err x) f bad good = bad x refl

number-cases :
    (it : BlockIter) (off : ℕ)
    → ((o : ℕ) × (v : ℕ) × (off ≤ o) × (number it off ≡ ok (v, o)))
      ⊎ (number it off ≡ err (ok (record it { off = off; valid = false })))
unfolding number
number-cases it off = elim (Result-cases (decode_uint64 (drop off it.block))) [
  | inl ((v, n), e) ↦ inl (off + n, v, omega arith, rw (e, number))
  | inr (x, e) ↦ inr (rw (e, number))
]

Moves-number :
    (it : BlockIter) (off : ℕ) (f : ℕ × ℕ → Result Exit BlockIter)
    → ((v o : ℕ) → off ≤ o → Moves it (f (v, o)))
    → Moves it (number it off >>= f)
Moves-number it off f good = elim (number-cases it off) [
  | inl (o, v, le, e) ↦ rw e (good v o le)
  | inr e ↦ rw e refl
]

entry_at-Moves :
    (it : BlockIter) (shared non_shared vlen seq off : ℕ)
    → it.off ≤ off
    → Moves it (entry_at it shared non_shared vlen seq off)
unfolding entry_at
entry_at-Moves it shared non_shared vlen seq off le =
    let start = off + 1 in
    let sum = start + non_shared + vlen in
    elim (Bool-cases (ltb off (length it.block))) [
      | inr f ↦ rw f refl
      | inl t ↦ rw t (elim (Bool-cases (is_beyond (length it.block) sum)) [
        | inl b ↦ rw b refl
        | inr b ↦
            rw b (elim (Bool-cases (leb sum (length it.block) && leb shared (length it.key))) [
              | inr p ↦ rw p tt
              | inl p ↦ rw p (omega arith, ground arith, refl)
            ])
      ])
    ]

next_entry-Moves : (it : BlockIter) → Moves it (next_entry it)
unfolding next_entry
next_entry-Moves it = Moves-number it it.off _ (λ shared o1 l1.
    Moves-number it o1 _ (λ non_shared o2 l2. Moves-number it o2 _ (λ vlen o3 l3.
      Moves-number it o3 _
        (λ seq o4 l4. entry_at-Moves it shared non_shared vlen seq o4 (omega arith)))))

-- What `Next` returns: an iterator that is not valid, one that moved on, or a panic.
abbrev Outcome : BlockIter → Exit → Type 0
Outcome it (ok it') = (it'.valid ≡ false) ⊎ Moves it (ok it')
Outcome it (err e) = Unit {0}

collapse :
    (it : BlockIter) (r : Result Exit BlockIter)
    → Moves it r
    → Outcome it (elim r [ err e ↦ e | ok it' ↦ ok it' ])
collapse it (ok it') m = inr m
collapse it (err (ok it')) m = inl m
collapse it (err (err e)) m = tt

next-Outcome : (it : BlockIter) → Outcome it (next it)
unfolding next
next-Outcome it = elim (Bool-cases (leb (length it.block) it.off)) [
  | inl t ↦ rw t (inl refl)
  | inr f ↦ rw f (collapse it (next_entry it) (next_entry-Moves it))
]

-- The loop that moves to the first key that is not below the target has ended by its own test, or
-- with a panic.
abbrev pub Ended : Bytes → Exit → Type 0
Ended target (ok it) = (it.valid && is_neg (compare it.key target)) ≡ false
Ended target (err e) = Unit {0}

skip_below-stop :
    (fuel : ℕ) (it : BlockIter) (target : Bytes)
    → (it.valid && is_neg (compare it.key target)) ≡ false
    → skip_below (suc fuel) it target ≡ ok it
unfolding skip_below
skip_below-stop fuel it target f = rw f refl

skip_below-round :
    (fuel : ℕ) (it : BlockIter) (target : Bytes)
    → (it.valid && is_neg (compare it.key target)) ≡ true
    → skip_below (suc fuel) it target
      ≡ (elim (next it) [ err e ↦ err e | ok it' ↦ skip_below fuel it' target ])
unfolding skip_below
skip_below-round fuel it target t = rw t refl

-- There is fuel for the bytes that are left.
abbrev HasFuel : ℕ → BlockIter → Type 0
HasFuel fuel it =
    (it.valid ≡ false) ⊎ ((it.off ≤ length it.block) × (length it.block < fuel + it.off))

HasFuel-next :
    (fuel : ℕ) (it it' : BlockIter)
    → HasFuel (suc fuel) it
    → it.valid ≡ true
    → Outcome it (ok it')
    → HasFuel fuel it'
HasFuel-next fuel it it' (inl e) v o = cc
HasFuel-next fuel it it' (inr h) v (inl e) = inl e
HasFuel-next fuel it it' (inr h) v (inr m) =
    let e = ap length m.2 in inr (omega (arith, m.1, e), omega (arith, m.0, h.1, e))

skip_below-Ended :
    (fuel : ℕ) (it : BlockIter) (target : Bytes)
    → HasFuel fuel it
    → Ended target (skip_below fuel it target)
skip_below-Ended zero it target (inl e) = unfold skip_below in rw e refl
skip_below-Ended zero it target (inr h) = absurd (omega (arith, h.0, h.1))
skip_below-Ended (suc fuel) it target h =
    elim (Bool-cases (it.valid && is_neg (compare it.key target))) [
      | inr f ↦ rw (skip_below-stop fuel it target f) f
      | inl t ↦ rw (skip_below-round fuel it target t) (elim (Result-cases (next it)) [
        | inr (e, q) ↦ rw q tt
        | inl (it', q) ↦
            let o : Outcome it (ok it') = subst (Outcome it) q (next-Outcome it) in
            let v : it.valid ≡ true = ground arith in
            rw q (skip_below-Ended fuel it' target (HasFuel-next fuel it it' h v o))
      ])
    ]

jump-Outcome :
    (it : BlockIter) (off : ℕ) → Outcome (record it { off = off; key = [] }) (jump it off)
unfolding jump
jump-Outcome it off = next-Outcome (record it { off = off; key = [] })

Ended-bind :
    {A : Type 0} (target : Bytes) (m : Result Error A) (f : A → Exit)
    → ((a : A) → Ended target (f a))
    → Ended target (m >>= f)
Ended-bind target (ok a) f h = h a
Ended-bind target (err e) f h = tt

-- From any offset of the block.
jump-Ended :
    (it : BlockIter) (off : ℕ) (target : Bytes)
    → Ended target (jump it off >>= λ it'. skip_below (length it.block + 1) it' target)
jump-Ended it off target = elim (Result-cases (jump it off)) [
  | inr (e, q) ↦ rw q tt
  | inl (it', q) ↦
      let o : Outcome (record it { off = off; key = [] }) (ok it') =
        subst (Outcome (record it { off = off; key = [] })) q (jump-Outcome it off) in
      let fuel : HasFuel (length it.block + 1) it' = elim o [
        | inl e ↦ inl e
        | inr m ↦ (let e = ap length m.2 in inr (omega (arith, m.1, e), omega (arith, e)))
      ] in
      rw q (skip_below-Ended (length it.block + 1) it' target fuel)
]

Ended-search :
    (it : BlockIter) (target : Bytes) (found : Result Error ℕ)
    → Ended target (
        found >>= λ lo.
        jump it (get_or it.restarts lo 0) >>= λ it'. skip_below (length it.block + 1) it' target)
Ended-search it target found =
    Ended-bind target found _ (λ lo. jump-Ended it (get_or it.restarts lo 0) target)

-- `Seek` in any block, damaged or not, and with any restart points: its loop forward has ended by its
-- own test when it returns, not for lack of fuel, at an iterator that is no longer valid or at one
-- whose key is not below the target; or it panics.
pub seek-Ended : (it : BlockIter) (target : Bytes) → Ended target (seek it target)
unfolding seek
seek-Ended it target =
    elim (it.restarts)
      as (λ rs. Ended target (elim rs [
        | [] ↦ jump it 0 >>= λ it'. skip_below (length it.block + 1) it' target
        | r ∷ rs' ↦
            restart_search (length it.restarts) it target 0 (length it.restarts - 1) >>= λ lo.
            jump it (get_or it.restarts lo 0) >>= λ it'. skip_below (length it.block + 1) it' target
      ])) [ [] ↦ jump-Ended it 0 target | r ∷ rs ↦ Ended-search it target _ ]
