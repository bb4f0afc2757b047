-- ===== src/Prelude/Pieces.antt =====
-- What a slice holds from an offset on.
use Prim.Native.Nat.{ℕ, ◌+◌, ◌≤◌}
use mathlib.Core.Path.{◌≡◌, refl, sym, ap, ◌∙◌}
use mathlib.Core.List.{◌++◌}
use native.Mathlib.Omega.{arith}
use go_durable_engine.Prelude.Lists.{
  length, take, drop, length-append, length-drop, drop-append, drop-drop, take-append,
}
use go_durable_engine.Prelude.Words.{Bytes}

-- `rest` is what the slice holds from `off` on.
pub record IsAt (p : Bytes) (off : ℕ) (rest : Bytes) : Type 0 where
  pub tail : drop off p ≡ rest
  pub within : off ≤ length p

pub IsAt-start : (p : Bytes) → IsAt p 0 p
IsAt-start p = record { tail = refl; within = omega arith }

pub IsAt-next :
    {p : Bytes} {off : ℕ} (a rest : Bytes) → IsAt p off (a ++ rest) → IsAt p (off + length a) rest
IsAt-next {p} {off} a rest h = record {
  tail = sym (drop-drop off (length a) p) ∙ ap (drop (length a)) h.tail ∙ drop-append a rest;
  within = omega (arith, ap length h.tail, length-append a rest, length-drop off p);
}

-- The piece itself.
pub IsAt-take :
    {p : Bytes} {off : ℕ} (a rest : Bytes)
    → IsAt p off (a ++ rest)
    → take (length a) (drop off p) ≡ a
IsAt-take a rest h = ap (take (length a)) h.tail ∙ take-append a rest
