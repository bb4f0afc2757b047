-- ===== src/Wal/Ends.antt =====
-- The scan ends: enough fuel is given on every file.
use go_durable_engine.Prelude.{
  ℕ, zero, suc, ◌+◌, ◌≤◌, ◌<◌, ◌≡◌, refl, ◌⊎◌, inl, inr, true, Option, none, some, arith, ltb, ◌==◌,
  if◌then◌else◌, Bool-cases, Option-cases, Result, ok, err, Bytes,
}
use go_durable_engine.Wal.{Error, panic, header_size}
use go_durable_engine.Crc.{frame_checksum}
use go_durable_engine.Wal.Scan.{
  PeekError, Header, parse_header, read_at, checked, framed, headed, frame_at, is_known,
  max_seq_after, peek_seq, scan_loop, scan_valid_prefix,
}

-- A frame that was found ends behind its header and inside the file.
abbrev IsInside : ℕ → ℕ → Option (ℕ × Bytes × ℕ) → Type 0
IsInside size off none = Unit {0}
IsInside size off (some (typ, payload, frame_end)) = (off + 9 ≤ frame_end) × (frame_end ≤ size)

checked-IsInside :
    (h : Header) (frame_end size off : ℕ) (payload : Option Bytes)
    → off + 9 ≤ frame_end
    → frame_end ≤ size
    → IsInside size off (checked h frame_end payload)
checked-IsInside h frame_end size off none lo hi = tt
checked-IsInside h frame_end size off (some payload) lo hi =
    elim (Bool-cases (frame_checksum h.typ payload == h.crc)) [
      | inl e ↦ rw e (lo, hi)
      | inr e ↦ rw e tt
    ]

framed-IsInside :
    (file : Bytes) (size off : ℕ) (h : Header) → IsInside size off (framed file size off h)
framed-IsInside file size off h = elim (Bool-cases (ltb size (off + header_size + h.plen))) [
  | inl e ↦ rw e tt
  | inr e ↦ rw e (
      checked-IsInside h (off + header_size + h.plen) size off
        (read_at file (off + header_size) h.plen) (omega arith) (ground arith))
]

headed-IsInside :
    (file : Bytes) (size off : ℕ) (hdr : Option Bytes)
    → IsInside size off (headed file size off hdr)
headed-IsInside file size off none = tt
headed-IsInside file size off (some hdr) = framed-IsInside file size off (parse_header hdr)

frame_at-IsInside : (file : Bytes) (size off : ℕ) → IsInside size off (frame_at file size off)
unfolding frame_at
frame_at-IsInside file size off = headed-IsInside file size off (read_at file off header_size)

max_seq_after-cases :
    (best : ℕ) (r : Result PeekError ℕ)
    → ((m : ℕ) × (max_seq_after best r ≡ ok m) × (best ≤ m))
      ⊎ ((max_seq_after best r ≡ err panic) × (r ≡ err PeekError.panics))
max_seq_after-cases best (ok seq) = inl (if ltb best seq then seq else best, refl, ground arith)
max_seq_after-cases best (err PeekError.invalid) = inl (best, refl, omega arith)
max_seq_after-cases best (err PeekError.panics) = inr (refl, refl)

-- A whole frame of a known type in the file on which `peekSeq` panics.
pub record Panics (file : Bytes) (size : ℕ) : Type 0 where
  pub off : ℕ
  pub typ : ℕ
  pub payload : Bytes
  pub frame_end : ℕ
  pub whole : frame_at file size off ≡ some (typ, payload, frame_end)
  pub known : is_known typ ≡ true
  pub panics : peek_seq typ payload ≡ err PeekError.panics

-- The scan ended inside the file with a number that is not below `best`, or it has panicked and
-- there is a frame for it.
abbrev pub IsScanned : Bytes → ℕ → ℕ → Result Error (ℕ × ℕ) → Type 0
IsScanned file size best r =
    ((e : ℕ) × (m : ℕ) × (r ≡ ok (e, m)) × (e ≤ size) × (best ≤ m))
    ⊎ ((r ≡ err panic) × Panics file size)

raised :
    (file : Bytes) (size best best' : ℕ) (r : Result Error (ℕ × ℕ))
    → best ≤ best'
    → IsScanned file size best' r
    → IsScanned file size best r
raised file size best best' r le (inl (e, m, h, hi, lo)) = inl (e, m, h, hi, omega arith)
raised file size best best' r le (inr p) = inr p

scan_loop-IsScanned :
    (fuel : ℕ) (file : Bytes) (size off best : ℕ)
    → off ≤ size
    → size < fuel + off
    → IsScanned file size best (scan_loop fuel file size off best)
unfolding scan_loop
scan_loop-IsScanned zero file size off best le enough = absurd (omega arith)
scan_loop-IsScanned (suc fuel) file size off best le enough =
    let here : IsScanned file size best (ok (off, best)) = inl (off, best, refl, le, omega arith) in
    elim (Bool-cases (ltb size (off + header_size))) [
      | inl e ↦ rw e here
      | inr e ↦ elim (Option-cases (frame_at file size off)) [
        | inl n ↦ rw (e, n) here
        | inr ((typ, payload, frame_end), s) ↦
            let inside : IsInside size off (some (typ, payload, frame_end)) =
              rw s at (frame_at-IsInside file size off) in
            elim (Bool-cases (is_known typ)) [
              | inr u ↦ rw (e, s, u) here
              | inl k ↦ elim (max_seq_after-cases best (peek_seq typ payload)) [
                | inr p ↦
                    rw (e, s, k, p.0)
                      (inr (
                        refl,
                        record {
                          off = off;
                          typ = typ;
                          payload = payload;
                          frame_end = frame_end;
                          whole = s;
                          known = k;
                          panics = p.1;
                        },
                      ))
                | inl (m, q, up) ↦
                    let rest =
                      scan_loop-IsScanned fuel file size frame_end m inside.1
                        (omega (arith, inside.0)) in
                    rw (e, s, k, q) (raised file size best m _ up rest)
              ]
            ]
      ]
    ]

-- On every file, valid or not, the scan ends within its fuel: it returns an end inside the file, or
-- it panics, and then the file has a whole frame of a known type on whose payload `peekSeq` panics.
pub scan_valid_prefix-IsScanned :
    (file : Bytes) (size : ℕ) → IsScanned file size 0 (scan_valid_prefix file size)
unfolding scan_valid_prefix
scan_valid_prefix-IsScanned file size =
    scan_loop-IsScanned (size + 1) file size 0 0 (omega arith) (omega arith)
