-- ===== src/Prelude/Words.antt =====
-- Byte slices and machine words as numbers with a range.
use Prim.Native.Nat.{ℕ, ◌*◌, ◌^◌, ◌<◌, ◌≤◌}
use go_durable_engine.Prelude.Tests.{leb}
use native.Mathlib.Omega.{arith}
use mathlib.Core.Path.{◌≡◌}
use mathlib.Core.Bool.{Bool, true}
use mathlib.Core.List.{List, [], ◌∷◌, ◌++◌}

-- `make` of `n` elements of `size` bytes: a 64-bit Go panics on more than 2 ^ 48 bytes in all.
abbrev pub can_make : ℕ → ℕ → Bool
can_make n size = leb (n * size) (2 ^ 48)

-- The content of a `[]byte`.
abbrev pub Bytes : Type 0
Bytes = List ℕ

abbrev pub IsByte : ℕ → Type 0
IsByte c = c < 256

abbrev pub IsUint16 : ℕ → Type 0
IsUint16 x = x < 2 ^ 16

abbrev pub IsUint32 : ℕ → Type 0
IsUint32 x = x < 2 ^ 32

abbrev pub IsUint64 : ℕ → Type 0
IsUint64 x = x < 2 ^ 64

abbrev pub All {ℓ κ} : {A : Type ℓ} → (A → Type κ) → List A → Type κ
All P [] = Unit {κ}
All P (x ∷ xs) = P x × All P xs

pub All-append {ℓ κ} :
    {A : Type ℓ} (P : A → Type κ) (xs ys : List A) → All P xs → All P ys → All P (xs ++ ys)
All-append P [] ys h g = g
All-append P (x ∷ xs) ys h g = (h.0, All-append P xs ys h.1 g)

pub All-append_iff {ℓ κ} :
    {A : Type ℓ} (P : A → Type κ) (xs ys : List A) → All P (xs ++ ys) → All P xs × All P ys
All-append_iff P [] ys h = (tt, h)
All-append_iff P (x ∷ xs) ys h = let (a, b) = All-append_iff P xs ys h.1 in ((h.0, a), b)

pub can_make-le : (n size : ℕ) → n * size ≤ 2 ^ 48 → can_make n size ≡ true
can_make-le n size h = ground arith
