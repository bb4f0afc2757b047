-- ===== src/Compact.antt =====
-- internal/compact/plan.go and types.go: which files a compaction merges. Levels, sizes and counts
-- are ints that are never negative; a threshold or a count that is not positive is 0 here.
pub mod Choice
use go_durable_engine.Prelude.{
  ℕ, zero, suc, Bool, List, [], ◌∷◌, ◌++◌, length, take, ltb, ◌==◌, if◌then◌else◌, Result, ok, err,
  Bytes,
}

pub data Error : Type 0 where
  no_inputs cancelled : Error
  other : Bytes → Error

pub record FileRef : Type 0 where
  pub path : Bytes
  pub name : Bytes
  pub level : ℕ
  pub size : ℕ

pub record Input : Type 0 where
  pub path : Bytes
  pub level : ℕ

unfoldable pub level0_inputs : List FileRef → List Input
level0_inputs [] = []
level0_inputs (f ∷ files) =
    let rest = level0_inputs files in
    if f.level == 0 then record { path = f.path; level = 0 } ∷ rest else rest

unfoldable pub plan_level0 : List FileRef → ℕ → List Input
unfolding level0_inputs
plan_level0 files threshold =
    let out = level0_inputs files in
    if ltb (length out) (if threshold == 0 then 4 else threshold) then [] else out

abbrev pub input_of : FileRef → Input
input_of f = record { path = f.path; level = f.level }

-- Without a plan, the first two files.
abbrev pub first_two : List FileRef → Result Error (List Input)
first_two (f ∷ g ∷ files) = ok (input_of f ∷ input_of g ∷ [])
first_two _ = err no_inputs

abbrev pub planned_or : List FileRef → List Input → Result Error (List Input)
planned_or files [] = first_two files
planned_or files (x ∷ inputs) = ok (x ∷ inputs)

unfoldable pub compact_inputs : List FileRef → Result Error (List Input)
unfolding plan_level0
compact_inputs files = planned_or files (plan_level0 files 2)

-- What a compaction returns, and the output that it removed after a failed merge.
abbrev pub merged {ℓ} : {R : Type ℓ} → Bytes → Result Error R → Result Error R × List Bytes
merged out_path (ok r) = (ok r, [])
merged out_path (err e) = (err e, out_path ∷ [])

abbrev pub allocated {ℓ} :
    {R : Type ℓ}
    → (Bytes → Bytes)
    → (Bytes → Result Error R)
    → Result Error Bytes
    → Result Error R × List Bytes
allocated join merge (ok name) = merged (join name) (merge (join name))
allocated join merge (err e) = (err e, [])

abbrev pub chosen {ℓ} :
    {R : Type ℓ}
    → (Bytes → Bytes)
    → Result Error Bytes
    → (List Input → Bytes → Result Error R)
    → Result Error (List Input)
    → Result Error R × List Bytes
chosen join alloc merge (ok inputs) = allocated join (merge inputs) alloc
chosen join alloc merge (err e) = (err e, [])

-- `CompactDirContext`; `join` is `filepath.Join(dir, ◌)`, `alloc` what `allocName` returns, and
-- `merge` the merge of the inputs into a path.
unfoldable pub compact_dir_context {ℓ} :
    {R : Type ℓ}
    → Bool
    → (Bytes → Bytes)
    → List FileRef
    → Result Error Bytes
    → (List Input → Bytes → Result Error R)
    → Result Error R × List Bytes
unfolding compact_inputs
compact_dir_context is_cancelled join files alloc merge =
    if is_cancelled then (err cancelled, []) else chosen join alloc merge (compact_inputs files)

-- The inner loop at position `i`, which holds `x`: the file that stands there in the end, and the
-- files behind it.
unfoldable pub sweep : FileRef → List FileRef → FileRef × List FileRef
sweep x [] = (x, [])
sweep x (y ∷ ys) =
    let smaller = ltb y.size x.size in
    let r = sweep (if smaller then y else x) ys in (r.0, (if smaller then x else y) ∷ r.1)

-- The outer loop; `n` is the number of files.
unfoldable pub exchange : ℕ → List FileRef → List FileRef
unfolding sweep
exchange zero files = files
exchange (suc n) [] = []
exchange (suc n) (x ∷ xs) = let r = sweep x xs in r.0 ∷ exchange n r.1

unfoldable pub pick_by_size : List FileRef → ℕ → List FileRef
unfolding exchange
pick_by_size files n = take n (exchange (length files) files)
