-- ===== src/Examples/Manifests.antt =====
-- The manifest at concrete inputs.
use mathlib.Core.List.{Memᴰ}
use go_durable_engine.Prelude.{
  ℕ, ◌^◌, ◌<◌, ◌≡◌, refl, sym, ap, ◌↔◌, ◌⊎◌, true, false, [], ◌∷◌, arith, ok, err, Bytes, none,
  some,
}
use go_durable_engine.Manifest.{FileMeta, State, io}
use go_durable_engine.Manifest.Codec.{Json, encode_binary, decode}
use go_durable_engine.Manifest.Store.{Manifest, open_manifest, replace}
use go_durable_engine.Manifest.RoundTrip.{IsFile, IsState, decode-encode_binary}
use go_durable_engine.Manifest.Reopen.{
  Change, added, apply, replace-mem, apply-log_seq, open_manifest-apply,
}

abbrev file : ℕ → FileMeta
file n = record {
  name = n ∷ [];
  level = 0;
  min_key = 97 ∷ [];
  max_key = 98 ∷ [];
  max_seq = n;
  entries = 2;
  file_size = 100;
}

abbrev now : Bytes
now = 50 ∷ []

abbrev two_files : State
two_files = record {
  version = 1;
  next_file = 3;
  log_seq = 5;
  files = file 1 ∷ file 2 ∷ [];
  updated_at = now;
}

abbrev manifest : Manifest
manifest = record { state = two_files; stored = none }

-- The change in the examples, and the state after it.
abbrev third : Change
third = added (file 7) 9

abbrev three_files : State
three_files = record {
  version = 1;
  next_file = 3;
  log_seq = 9;
  files = file 1 ∷ file 2 ∷ file 7 ∷ [];
  updated_at = now;
}

-- A format that knows this one state.
abbrev json : Json
json = record { to_json = λ st. 123 ∷ []; of_json = λ raw. some three_files }

file-IsFile : (n : ℕ) → n < 256 ^ 8 → IsFile (file n)
file-IsFile n h = record {
  name = omega arith;
  level = omega arith;
  min_key = omega arith;
  max_key = omega arith;
  max_seq = h;
  entries = omega arith;
  file_size = omega arith;
}

two_files-IsState : IsState two_files
two_files-IsState = record {
  version = omega arith;
  next_file = omega arith;
  log_seq = omega arith;
  count = omega arith;
  files = (file-IsFile 1 (omega arith), (file-IsFile 2 (omega arith), tt));
}

decode-encode_binary_example :
    decode json (51 ∷ []) (encode_binary two_files) ≡ ok (record two_files { updated_at = 51 ∷ [] })
decode-encode_binary_example = decode-encode_binary json (51 ∷ []) two_files two_files-IsState

replace-mem_example :
    Memᴰ (file 7) (replace ((1 ∷ []) ∷ []) (file 7 ∷ []) 9 json now false manifest).0.state.files
    ↔ ((Memᴰ (file 7) (file 1 ∷ file 2 ∷ []) × ¬ Memᴰ {A = Bytes} (7 ∷ []) ((1 ∷ []) ∷ []))
        ⊎ Memᴰ (file 7) (file 7 ∷ []))
replace-mem_example = replace-mem ((1 ∷ []) ∷ []) (file 7 ∷ []) 9 json now false manifest (file 7)

apply-log_seq_example : (apply third json now true manifest).0.state.log_seq ≡ 9
apply-log_seq_example = apply-log_seq third json now true manifest

after_third : (apply third json now false manifest).0.state ≡ three_files
unfolding apply
after_third = refl

open_manifest-apply_example :
    ((apply third json now false manifest).1 ≡ ok tt)
    × (open_manifest json (51 ∷ []) false (apply third json now false manifest).0.stored
        ≡ ok (apply third json now false manifest).0)
    × ((apply third json now true manifest).1 ≡ err io)
    × ((apply third json now true manifest).0.stored ≡ none)
open_manifest-apply_example =
    open_manifest-apply third json now (51 ∷ []) manifest (ap some (sym after_third)) refl
