-- ===== src/Manifest/Store.antt =====
-- internal/manifest/store.go: every change is persisted at once. What the operating system answers
-- to the writes of `persistLocked` is an argument, true when one fails before the rename.
use go_durable_engine.Prelude.{
  ℕ, ◌+◌, ◌^◌, ◌%◌, Bool, true, false, Option, none, some, List, [], ◌∷◌, ◌++◌, length, ltb,
  if◌then◌else◌, Result, ok, err, ◌>>=◌, Bytes,
}
use go_durable_engine.Bytes.{equal}
use go_durable_engine.Manifest.{Error, io, version_json, FileMeta, State}
use go_durable_engine.Manifest.Codec.{Json, decode}

-- The state in memory and the content of the file MANIFEST, which a rename replaces as a whole.
pub record Manifest : Type 0 where
  pub state : State
  pub stored : Option Bytes

unfoldable pub persist : Json → Bytes → Bool → Manifest → Manifest × Result Error (Unit {0})
persist j now fails m =
    let st = record m.state { updated_at = now; version = version_json } in
    if fails
    then (record { state = st; stored = m.stored }, err io)
    else (record { state = st; stored = some (j.to_json st) }, ok tt)

abbrev pub empty_state : Bytes → State
empty_state now = record {
  version = version_json;
  next_file = 1;
  log_seq = 0;
  files = [];
  updated_at = now;
}

-- `Open`, on what the directory holds.
abbrev pub opened : Manifest × Result Error (Unit {0}) → Result Error Manifest
opened (m, ok _) = ok m
opened (m, err e) = err e

unfoldable pub open_manifest : Json → Bytes → Bool → Option Bytes → Result Error Manifest
unfolding persist decode
open_manifest j now fails none =
    opened (persist j now fails (record { state = empty_state now; stored = none }))
open_manifest j now fails (some raw) =
    decode j now raw >>= λ st. ok (record { state = st; stored = some raw })

-- `format` is `fmt.Sprintf("%06d.sst", n)`.
abbrev pub allocated : Bytes → Manifest × Result Error (Unit {0}) → Manifest × Result Error Bytes
allocated name (m, ok _) = (m, ok name)
allocated name (m, err e) = (m, err e)

unfoldable pub alloc_file_name :
    (ℕ → Bytes) → Json → Bytes → Bool → Manifest → Manifest × Result Error Bytes
unfolding persist
alloc_file_name format j now fails m = allocated (format m.state.next_file) (
    persist j now fails (record {
      state = record m.state { next_file = (m.state.next_file + 1) % 2 ^ 64 };
      stored = m.stored;
    }))

-- `if seq > m.state.LogSeq { m.state.LogSeq = seq }`.
abbrev pub raise : ℕ → ℕ → ℕ
raise seq log_seq = if ltb log_seq seq then seq else log_seq

unfoldable pub add_file :
    FileMeta → ℕ → Json → Bytes → Bool → Manifest → Manifest × Result Error (Unit {0})
unfolding persist
add_file meta seq j now fails m = persist j now fails (record {
  state = record m.state {
    files = m.state.files ++ meta ∷ [];
    log_seq = raise seq m.state.log_seq;
  };
  stored = m.stored;
})

-- `_, ok := rm[name]`, on the map made from the names to remove.
unfoldable pub is_removed : List Bytes → Bytes → Bool
is_removed [] name = false
is_removed (n ∷ remove) name = if equal n name then true else is_removed remove name

unfoldable pub kept : List Bytes → List FileMeta → List FileMeta
unfolding is_removed
kept remove [] = []
kept remove (f ∷ fs) =
    let rest = kept remove fs in if is_removed remove f.name then rest else f ∷ rest

unfoldable pub replace :
    List Bytes
    → List FileMeta
    → ℕ
    → Json
    → Bytes
    → Bool
    → Manifest
    → Manifest × Result Error (Unit {0})
unfolding persist kept
replace remove add seq j now fails m = persist j now fails (record {
  state = record m.state {
    files = kept remove m.state.files ++ add;
    log_seq = raise seq m.state.log_seq;
  };
  stored = m.stored;
})

unfoldable pub set_log_seq : ℕ → Json → Bytes → Bool → Manifest → Manifest × Result Error (Unit {0})
unfolding persist
set_log_seq seq j now fails m =
    persist j now fails
      (record { state = record m.state { log_seq = raise seq m.state.log_seq }; stored = m.stored })

abbrev pub count : Manifest → ℕ
count m = length m.state.files

unfoldable pub max_seq_loop : List FileMeta → ℕ → ℕ
max_seq_loop [] best = best
max_seq_loop (f ∷ fs) best = max_seq_loop fs (if ltb best f.max_seq then f.max_seq else best)

unfoldable pub max_seq_among_files : Manifest → ℕ
unfolding max_seq_loop
max_seq_among_files m = max_seq_loop m.state.files 0
