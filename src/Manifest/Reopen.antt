-- ===== src/Manifest/Reopen.antt =====
-- What the changes of the manifest do to the set of files and to the numbers, and what a restart
-- finds on the disk after them.
use mathlib.Core.List.Memᴰ
use mathlib.Core.List.{Memᴰ}
use go_durable_engine.Prelude.{
  ℕ, ◌≤◌, ◌≡◌, refl, sym, ap, ◌∙◌, ◌⊎◌, inl, inr, ◌↔◌, Bool, true, false, some, List, [], ◌∷◌, ◌++◌,
  arith, ltb, Bool-cases, Result, ok, err, Bytes, max,
}
use go_durable_engine.Bytes.{equal}
use go_durable_engine.Bytes.Order.{equal_iff}
use go_durable_engine.Manifest.{Error, io, FileMeta}
use go_durable_engine.Manifest.Codec.{Json, has_magic, decode}
use go_durable_engine.Manifest.Store.{
  Manifest, persist, open_manifest, raise, add_file, is_removed, kept, replace, set_log_seq,
  max_seq_loop, max_seq_among_files,
}

-- A change of the files or of the log's number.
pub data Change : Type 0 where
  added : FileMeta → ℕ → Change
  replaced : List Bytes → List FileMeta → ℕ → Change
  logged : ℕ → Change

unfoldable pub apply : Change → Json → Bytes → Bool → Manifest → Manifest × Result Error (Unit {0})
unfolding add_file replace set_log_seq
apply (added meta seq) = add_file meta seq
apply (replaced remove add seq) = replace remove add seq
apply (logged seq) = set_log_seq seq

abbrev pub change_seq : Change → ℕ
change_seq (added meta seq) = seq
change_seq (replaced remove add seq) = seq
change_seq (logged seq) = seq

is_removed_iff :
    (remove : List Bytes) (name : Bytes) → (is_removed remove name ≡ true) ↔ Memᴰ name remove
unfolding is_removed
is_removed_iff [] name = (λ e. cc, λ m. absurd (Memᴰ.not-nil m))
is_removed_iff (n ∷ remove) name =
    let rest = is_removed_iff remove name in
    let same = equal_iff n name in
    elim (Bool-cases (equal n name)) [
      | inl e ↦ (λ _. Memᴰ.head (sym (same.0 e)), λ _. rw e refl)
      | inr e ↦ (
        λ r. Memᴰ.tail (rest.0 (rw e at r)),
        λ m. elim (Memᴰ.cases_cons m) [
          | inl h ↦ absurd (cc (same.1 (sym h)))
          | inr m' ↦ rw e (rest.1 m')
        ],
      )
    ]

kept-mem :
    (remove : List Bytes) (fs : List FileMeta) (f : FileMeta)
    → Memᴰ f (kept remove fs) ↔ (Memᴰ f fs × (is_removed remove f.name ≡ false))
unfolding kept
kept-mem remove [] f = (λ m. absurd (Memᴰ.not-nil m), λ m. absurd (Memᴰ.not-nil m.0))
kept-mem remove (g ∷ fs) f =
    let rest = kept-mem remove fs f in
    elim (Bool-cases (is_removed remove g.name)) [
      | inl e ↦ rw e (
        λ m. let r = rest.0 m in (Memᴰ.tail r.0, r.1),
        λ m. elim (Memᴰ.cases_cons m.0) [
          | inl h ↦ absurd (cc (ap (λ (x : FileMeta). is_removed remove x.name) h, e, m.1))
          | inr m' ↦ rest.1 (m', m.1)
        ],
      )
      | inr e ↦ rw e (
        λ m. elim (Memᴰ.cases_cons m) [
          | inl h ↦ (Memᴰ.head h, ap (λ (x : FileMeta). is_removed remove x.name) h ∙ e)
          | inr m' ↦ let r = rest.0 m' in (Memᴰ.tail r.0, r.1)
        ],
        λ m. elim (Memᴰ.cases_cons m.0) [
          | inl h ↦ Memᴰ.head h
          | inr m' ↦ Memᴰ.tail (rest.1 (m', m.1))
        ],
      )
    ]

persist-files :
    (j : Json) (now : Bytes) (fails : Bool) (m : Manifest)
    → ((persist j now fails m).0.state.files ≡ m.state.files)
      × ((persist j now fails m).0.state.log_seq ≡ m.state.log_seq)
unfolding persist
persist-files j now true m = (refl, refl)
persist-files j now false m = (refl, refl)

-- After a replacement, whether or not it reached the disk, a file is in the manifest exactly when
-- it was there and its name is not among the removed ones, or when it was added.
pub replace-mem :
    (remove : List Bytes) (add : List FileMeta) (seq : ℕ) (j : Json) (now : Bytes) (fails : Bool)
    (m : Manifest) (f : FileMeta)
    → Memᴰ f (replace remove add seq j now fails m).0.state.files
      ↔ ((Memᴰ f m.state.files × ¬ Memᴰ f.name remove) ⊎ Memᴰ f add)
unfolding replace
replace-mem remove add seq j now fails m f =
    let after : Manifest = record {
      state = record m.state {
        files = kept remove m.state.files ++ add;
        log_seq = raise seq m.state.log_seq;
      };
      stored = m.stored;
    } in
    let same = (persist-files j now fails after).0 in
    let keep = kept-mem remove m.state.files f in
    let named = is_removed_iff remove f.name in
    rw same (
      λ x. elim (Memᴰ.append_cases (kept remove m.state.files) x) [
        | inl k ↦ let r = keep.0 k in inl (r.0, λ n. cc (named.1 n, r.1))
        | inr a ↦ inr a
      ],
      λ x. elim x [
        | inl r ↦ elim (Bool-cases (is_removed remove f.name)) [
          | inl e ↦ absurd (r.1 (named.0 e))
          | inr e ↦ Memᴰ.append_left add (keep.1 (r.0, e))
        ]
        | inr a ↦ Memᴰ.append_right (kept remove m.state.files) a
      ],
    )

raise-max : (seq log_seq : ℕ) → raise seq log_seq ≡ max log_seq seq
raise-max seq log_seq = ground arith

-- The manifest that a change persists.
abbrev in_memory : Change → Manifest → Manifest
in_memory (added meta seq) m = record {
  state = record m.state {
    files = m.state.files ++ meta ∷ [];
    log_seq = raise seq m.state.log_seq;
  };
  stored = m.stored;
}
in_memory (replaced remove add seq) m = record {
  state = record m.state {
    files = kept remove m.state.files ++ add;
    log_seq = raise seq m.state.log_seq;
  };
  stored = m.stored;
}
in_memory (logged seq) m = record {
  state = record m.state { log_seq = raise seq m.state.log_seq };
  stored = m.stored;
}

apply-persist :
    (c : Change) (j : Json) (now : Bytes) (fails : Bool) (m : Manifest)
    → apply c j now fails m ≡ persist j now fails (in_memory c m)
unfolding apply
apply-persist (added meta seq) j now fails m = refl
apply-persist (replaced remove add seq) j now fails m = refl
apply-persist (logged seq) j now fails m = refl

in_memory-log_seq :
    (c : Change) (m : Manifest) → (in_memory c m).state.log_seq ≡ max m.state.log_seq (change_seq c)
in_memory-log_seq (added meta seq) m = raise-max seq m.state.log_seq
in_memory-log_seq (replaced remove add seq) m = raise-max seq m.state.log_seq
in_memory-log_seq (logged seq) m = raise-max seq m.state.log_seq

in_memory-stored : (c : Change) (m : Manifest) → (in_memory c m).stored ≡ m.stored
in_memory-stored (added meta seq) m = refl
in_memory-stored (replaced remove add seq) m = refl
in_memory-stored (logged seq) m = refl

-- Every change sets the number of the log to the larger of its own and the old one, so that it
-- never falls, whether or not the change reached the disk.
pub apply-log_seq :
    (c : Change) (j : Json) (now : Bytes) (fails : Bool) (m : Manifest)
    → (apply c j now fails m).0.state.log_seq ≡ max m.state.log_seq (change_seq c)
apply-log_seq c j now fails m =
    rw (apply-persist c j now fails m)
      ((persist-files j now fails (in_memory c m)).1 ∙ in_memory-log_seq c m)

-- A change whose writes succeed is what a restart finds: opening the file that it left gives the
-- very manifest in memory, where JSON reads back the state that it wrote and its text does not
-- start like the binary form. A change whose write failed returns the error and leaves the old
-- file in place.
pub open_manifest-apply :
    (c : Change) (j : Json) (now later : Bytes) (m : Manifest)
    → (let st = (apply c j now false m).0.state in
        j.of_json (j.to_json st) ≡ some st
        → has_magic (j.to_json st) ≡ false
        → ((apply c j now false m).1 ≡ ok tt)
          × (open_manifest j later false (apply c j now false m).0.stored
              ≡ ok (apply c j now false m).0)
          × ((apply c j now true m).1 ≡ err io)
          × ((apply c j now true m).0.stored ≡ m.stored))
open_manifest-apply c j now later m =
    rw (apply-persist c j now false m, apply-persist c j now true m)
      (unfold persist open_manifest decode in
        λ back plain. (refl, rw (plain, back) refl, refl, in_memory-stored c m))

max_seq_loop-bound :
    (fs : List FileMeta) (best : ℕ)
    → (best ≤ max_seq_loop fs best)
      × ((f : FileMeta) → Memᴰ f fs → f.max_seq ≤ max_seq_loop fs best)
      × ((max_seq_loop fs best ≡ best)
          ⊎ ((f : FileMeta) × Memᴰ f fs × (f.max_seq ≡ max_seq_loop fs best)))
unfolding max_seq_loop
max_seq_loop-bound [] best = (omega arith, λ f m. absurd (Memᴰ.not-nil m), inl refl)
max_seq_loop-bound (f ∷ fs) best = elim (Bool-cases (ltb best f.max_seq)) [
  | inl e ↦
      let r = max_seq_loop-bound fs f.max_seq in
      rw e (
        ground (arith, r.0),
        λ g m. elim (Memᴰ.cases_cons m) [
          | inl s ↦ omega (arith, ap (λ (x : FileMeta). x.max_seq) s, r.0)
          | inr m' ↦ r.1 g m'
        ],
        elim r.2 [
          | inl s ↦ inr (f, Memᴰ.head refl, sym s)
          | inr (g, m, s) ↦ inr (g, Memᴰ.tail m, s)
        ],
      )
  | inr e ↦
      let r = max_seq_loop-bound fs best in
      let le : f.max_seq ≤ best = ground arith in
      rw e (
        r.0,
        λ g m. elim (Memᴰ.cases_cons m) [
          | inl s ↦ omega (arith, ap (λ (x : FileMeta). x.max_seq) s, r.0)
          | inr m' ↦ r.1 g m'
        ],
        elim r.2 [ inl s ↦ inl s | inr (g, m, s) ↦ inr (g, Memᴰ.tail m, s) ],
      )
]

-- `max_seq_among_files` is the least upper bound of the numbers of the files: none is above it, and
-- it is 0 or the number of a file.
max_seq_among_files-least :
    (m : Manifest)
    → ((f : FileMeta) → Memᴰ f m.state.files → f.max_seq ≤ max_seq_among_files m)
      × ((max_seq_among_files m ≡ 0)
          ⊎ ((f : FileMeta) × Memᴰ f m.state.files × (f.max_seq ≡ max_seq_among_files m)))
unfolding max_seq_among_files
max_seq_among_files-least m = let r = max_seq_loop-bound m.state.files 0 in (r.1, r.2)
