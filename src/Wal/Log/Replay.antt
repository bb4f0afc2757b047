-- ===== src/Wal/Log/Replay.antt =====
-- What a replay hands to its callback.
use mathlib.Core.Path.{subst}
use go_durable_engine.Prelude.{
  ℕ, zero, suc, ◌+◌, ◌<◌, ◌≡◌, refl, sym, ap, ◌∙◌, Bool, true, false, List, [], ◌∷◌, ◌++◌, arith,
  length, length-append, ltb, if◌then◌else◌, if_false, Result, ok, err, ◌>>=◌, Bytes, All, inl, inr,
  Result-cases,
}
use go_durable_engine.Wal.{Error, Record, header_size}
use go_durable_engine.Wal.Encode.{frame}
use go_durable_engine.Wal.Decode.{decode_frame}
use go_durable_engine.Wal.Scan.{feed, replay_loop}
use go_durable_engine.Prelude.Pieces.{IsAt, IsAt-start, IsAt-next}
use go_durable_engine.Wal.Torn.{
  LogFrame, IsLogFrame, frames_bytes, length-frame, frame_at-frame, length-IsAt, length-frames,
}
use go_durable_engine.Wal.Log.{File, Log, replayed, replay_context}
use go_durable_engine.Wal.Log.Appends.{Holds, at_end}

-- The records of a frame.
abbrev pub frame_records : Result Error (List Record) → List Record
frame_records (ok recs) = recs
frame_records (err e) = []

abbrev pub records_of : List LogFrame → List Record
records_of [] = []
records_of (f ∷ fs) = frame_records (decode_frame f.typ f.payload) ++ records_of fs

-- The payload of a frame decodes.
abbrev pub Decodes : LogFrame → Type 0
Decodes f = (recs : List Record) × (decode_frame f.typ f.payload ≡ ok recs)

replayed-result {ℓ} : {S : Type ℓ} (l : Log) (r : Result Error S) → (replayed l r).1 ≡ r
replayed-result l (ok s) = refl
replayed-result l (err e) = refl

module _ {ℓ} {S : Type ℓ} (fn : S → Record → Result Error S) where
  feed-append :
      (a b : List Record) (s : S) → feed fn s (a ++ b) ≡ (feed fn s a >>= λ s'. feed fn s' b)
  unfolding feed
  feed-append [] b s = refl
  feed-append (r ∷ a) b s = elim (Result-cases (fn s r)) [
    | inl (s', e) ↦ rw e (feed-append a b s')
    | inr (x, e) ↦ rw e
  ]

  module _ (ctx : ℕ → Bool) (running : (k : ℕ) → ctx k ≡ false) where
    replay_loop-frame :
        {file : Bytes} {off : ℕ} (f : LogFrame) (rest : Bytes) (fuel k : ℕ) (s : S)
        → IsLogFrame f
        → Decodes f
        → IsAt file off (frame f.typ f.payload ++ rest)
        → replay_loop (suc fuel) ctx k fn file (length file) off s ≡ (
            feed fn s (frame_records (decode_frame f.typ f.payload)) >>= λ s'.
            replay_loop fuel ctx
              (k + 1)
              fn
              file
              (length file)
              (off + length (frame f.typ f.payload))
              s')
    unfolding replay_loop
    replay_loop-frame {file} {off} f rest fuel k s h d start =
        let n = length-frame f.typ f.payload in
        let inside : ltb (length file) (off + header_size) ≡ false =
          ground (arith, length-IsAt start, length-append (frame f.typ f.payload) rest) in
        let end : off + 9 + length f.payload ≡ off + length (frame f.typ f.payload) = omega arith in
        rw inside (
          rw (running k) (rw (frame_at-frame f.typ f.payload rest h.small start) (rw d.1 (rw end))))

    replay_loop-frames :
        (fs : List LogFrame) {file : Bytes} {off : ℕ} (fuel k : ℕ) (s : S)
        → All IsLogFrame fs
        → All Decodes fs
        → length fs < fuel
        → IsAt file off (frames_bytes fs)
        → replay_loop fuel ctx k fn file (length file) off s ≡ feed fn s (records_of fs)
    replay_loop-frames [] zero k s h d lt start = absurd (omega arith)
    replay_loop-frames [] {file} {off} (suc fuel) k s h d lt start =
        let over : ltb (length file) (off + header_size) ≡ true =
          ground (arith, length-IsAt start) in
        unfold replay_loop feed in rw over
    replay_loop-frames (f ∷ fs) zero k s h d lt start = absurd (omega arith)
    replay_loop-frames (f ∷ fs) {file} {off} (suc fuel) k s h d lt start =
        let recs = frame_records (decode_frame f.typ f.payload) in
        let next = IsAt-next (frame f.typ f.payload) (frames_bytes fs) start in
        replay_loop-frame f (frames_bytes fs) fuel k s h.0 d.0 start
        ∙ ap (λ (g : S → Result Error S). feed fn s recs >>= g)
            (λ i s'. replay_loop-frames fs fuel (k + 1) s' h.1 d.1 (omega arith) next i)
        ∙ sym (feed-append recs (records_of fs) s)

    -- A replay of a log in order whose payloads decode, in a context that is not cancelled, feeds
    -- the records of all frames to the callback.
    pub replay_context-feed :
        (l : Log) (fs : List LogFrame) (s : S)
        → Holds l fs
        → All Decodes fs
        → (replay_context l ctx fn s).1 ≡ feed fn s (records_of fs)
    unfolding replay_context
    replay_context-feed l fs s h d =
        let e =
          replay_loop-frames fs (length (frames_bytes fs) + 1) 1 s h.frames d
            (omega (arith, length-frames fs)) (IsAt-start (frames_bytes fs)) in
        let r = replay_loop (l.size + 1) ctx 1 fn l.file.bytes l.size 0 s in
        ap (λ (a : Log × Result Error S). a.1)
          (if_false l.is_closed _ (if ctx 0 then _ else replayed l r) h.is_open
            ∙ if_false (ctx 0) _ (replayed l r) (running 0))
        ∙ replayed-result l r
        ∙ ap (λ (n : ℕ). replay_loop (n + 1) ctx 1 fn l.file.bytes n 0 s) h.size
        ∙ ap
            (λ (f : File).
              replay_loop (length (frames_bytes fs) + 1) ctx 1 fn f.bytes (length (frames_bytes fs))
                0 s)
            h.bytes
        ∙ e

    replayed-Holds :
        (l : Log) (fs : List LogFrame) (r : Result Error S) (s' : S)
        → Holds l fs
        → (replayed l r).1 ≡ ok s'
        → Holds (replayed l r).0 fs × ((replayed l r).0.next_seq ≡ l.next_seq)
    replayed-Holds l fs (err e) s' h q = cc
    replayed-Holds l fs (ok s) s' h q = (
      record {
        bytes =
            ap (λ (f : File). record f { pos = l.size }) h.bytes
            ∙ ap (λ (n : ℕ). record (at_end (frames_bytes fs)) { pos = n }) h.size;
        size = h.size;
        frames = h.frames;
        seqs = h.seqs;
        is_open = h.is_open;
      },
      refl,
    )

    -- A replay that succeeds leaves the log in order, and its number as it was.
    pub replay_context-Holds :
        (l : Log) (fs : List LogFrame) (s s' : S)
        → Holds l fs
        → (replay_context l ctx fn s).1 ≡ ok s'
        → Holds (replay_context l ctx fn s).0 fs
          × ((replay_context l ctx fn s).0.next_seq ≡ l.next_seq)
    unfolding replay_context
    replay_context-Holds l fs s s' h q =
        let r = replay_loop (l.size + 1) ctx 1 fn l.file.bytes l.size 0 s in
        let e : replay_context l ctx fn s ≡ replayed l r =
          if_false l.is_closed _ (if ctx 0 then _ else replayed l r) h.is_open
          ∙ if_false (ctx 0) _ (replayed l r) (running 0) in
        subst (λ (a : Log × Result Error S). Holds a.0 fs × (a.0.next_seq ≡ l.next_seq)) (sym e)
          (replayed-Holds l fs r s' h (sym (ap (λ (a : Log × Result Error S). a.1) e) ∙ q))
