-- ===== src/Tests/Files.antt =====
-- The theorems on writing the data file at concrete inputs.
use lumenvec.Base.{
  ℕ, ◌==◌, system, inl, inr, false, ◌≡◌, refl, List, [], ◌∷◌, none, some, bytes, ok, err, done, ◌⊎◌,
  arith, All, Text-Eq,
}
use lumenvec.Base.Ints.{pos}
use lumenvec.Numeric.{Vector}
use lumenvec.OrderedIds.{new_ordered_id_index}
use lumenvec.FileStore.Log.{Fits, file_of}
use lumenvec.FileStore.Write.{WriteIo, FileVectorStore, upsert_records}
use lumenvec.FileStore.Write.Consistency.{Mirrors, puts}
use lumenvec.FileStore.Write.Outcomes.{upsert_records-Written}
use lumenvec.Base.{lookup}
use lumenvec.FileStore.Compact.{Compaction, first_error, CompactIo, maybe_compact}
use lumenvec.FileStore.Open.{OpenIo, open_locked}
use lumenvec.FileStore.Open.Recovery.{answers, open_locked-Keeps}
use lumenvec.FileStore.Compact.Outcome.{Keeps, maybe_compact-Keeps}
use lumenvec.Tests.Instances.{Number, one, two, numbers, sorted_set}

abbrev empty_store : FileVectorStore numbers sorted_set
empty_store = record {
  disk = [];
  offsets = [];
  ids = new_ordered_id_index sorted_set;
  writes = 0;
  stale = 0;
  pending = 0;
  sync_every = 1;
  hot = record { order = []; max_items = pos 1024 };
}

empty_store-Mirrors : Mirrors numbers sorted_set [] empty_store
unfolding lookup
empty_store-Mirrors = record {
  fit = tt;
  disk = refl;
  memory = refl;
  tidy = record {
    capacity = 1023;
    listed = λ j. refl;
    hot = record { limit = refl; size = omega arith; distinct = tt };
    fresh = λ j v at. absurd (ground arith);
  };
}

abbrev good : WriteIo
good = record { seek = none; write = none; residue = []; sync = none }

abbrev full : WriteIo
full = record { seek = none; write = some 28; residue = 14 ∷ []; sync = none }

abbrev pair : List (Vector Number)
pair =
    record { id = bytes "a"; values = one ∷ [] } ∷ record { id = bytes "b"; values = two ∷ [] } ∷ []

-- What a batch leaves of the empty store.
filled-Mirrors :
    (vecs : List (Vector Number))
    → All (Fits numbers) (puts numbers sorted_set vecs)
    → Mirrors numbers sorted_set
        (puts numbers sorted_set vecs)
        (upsert_records numbers sorted_set good vecs empty_store).1
filled-Mirrors vecs fits =
    let (written, succeeds) =
      upsert_records-Written numbers sorted_set good vecs [] empty_store fits empty_store-Mirrors in
    let went : (upsert_records numbers sorted_set good vecs empty_store).0 ≡ done =
      succeeds (record { seek = refl; write = refl; sync = refl }) in
    elim written [
      | inl h ↦ h
      | inr (e, residue, failed, same) ↦ absurd (ground (arith, went, failed))
    ]

abbrev holding_pair : FileVectorStore numbers sorted_set
holding_pair = (upsert_records numbers sorted_set good pair empty_store).1

abbrev twice : List (Vector Number)
twice =
    record { id = bytes "a"; values = one ∷ [] } ∷ record { id = bytes "a"; values = two ∷ [] } ∷ []

abbrev overwritten : FileVectorStore numbers sorted_set
overwritten = (upsert_records numbers sorted_set good twice empty_store).1

overwritten-Mirrors : Mirrors numbers sorted_set (puts numbers sorted_set twice) overwritten
overwritten-Mirrors = filled-Mirrors twice (omega arith, (omega arith, tt))

abbrev all_good : CompactIo
all_good = record {
  sync = none;
  unreadable = λ id. false;
  open_tmp = none;
  write_tmp = none;
  sync_tmp = none;
  close_tmp = none;
  close_file = none;
  rename = none;
  open_file = none;
  seek = none;
}

maybe_compact-Keeps_example :
    Keeps numbers sorted_set all_good.unreadable
      (puts numbers sorted_set twice)
      (maybe_compact numbers sorted_set all_good overwritten)
maybe_compact-Keeps_example =
    maybe_compact-Keeps numbers sorted_set all_good (puts numbers sorted_set twice) overwritten
      overwritten-Mirrors

-- One of the two records cannot be read.
abbrev one_unreadable : CompactIo
one_unreadable = record all_good { unreadable = λ id. id == bytes "b" }

abbrev opens : OpenIo
opens = record { mkdir = none; open_file = none; seek_start = none; read = none; seek_end = none }

-- A store before its file is opened.
abbrev closed_store : FileVectorStore numbers sorted_set
closed_store = record empty_store { disk = file_of numbers (puts numbers sorted_set twice) }

open_locked-Keeps_example :
    ((e : ℕ) × (first_error (answers numbers sorted_set opens) ≡ some e)
      × (open_locked numbers sorted_set opens one_unreadable closed_store ≡ err (system e)))
    ⊎ ((c : Compaction numbers sorted_set) × (first_error (answers numbers sorted_set opens) ≡ none)
        × (open_locked numbers sorted_set opens one_unreadable closed_store ≡ ok c)
        × Keeps numbers sorted_set one_unreadable.unreadable (puts numbers sorted_set twice) c)
open_locked-Keeps_example =
    open_locked-Keeps numbers sorted_set opens one_unreadable (puts numbers sorted_set twice)
      closed_store 1023 (record { limit = refl; size = omega arith; distinct = tt })
      (omega arith, (omega arith, tt)) refl
