-- ===== src/Persistence.antt =====
-- snapshotWALBackend of internal/core/persistence.go: a snapshot file and a write-ahead log. The
-- log file is the list of its lines. What a system call answers is an argument of each operation:
-- `none` where it succeeds, else the number of its error.
use lumenvec.Base.{
  ℕ, ◌+◌, ◌≡◌, Bool, true, false, List, [], ◌∷◌, ◌++◌, Option, none, some, Text, Text-Eq, Map,
  lookup, insert, length, ltb, nat_eq, text_eq, is_blank, Result, ok, err, done, system,
  line_too_long, skip_wal_op, ◌>>=◌, if◌then◌else◌,
}
use lumenvec.Numeric.{Floats, Vector}

module _ (fl : Floats) where
  open fl use {F64}

  pub data WalOp : Type 0 where
    upsert : Text → List F64 → WalOp
    delete : Text → WalOp
    -- any other value of the field `op`
    other : Text → WalOp

  abbrev pub Payload : Type 0
  Payload = Map Text (List F64)

  -- The entry that a sequence of entries leaves under an id: the last one.
  abbrev pub last_entry : Text → Payload → Option (List F64)
  last_entry j [] = none
  last_entry j ((k, v) ∷ m) = elim (last_entry j m) [
    | some w ↦ some w
    | none ↦ if text_eq k j then some v else none
  ]

  -- encoding/json on the two file formats. It refuses numbers that are not finite. The ids are
  -- valid UTF-8, as the transports deliver them. A payload is read as its entries, in the order in
  -- which the loop over the map meets them.
  pub record Json : Type 0 where
    pub encode_op : WalOp → Result Text
    pub decode_op : Text → Result WalOp
    pub encode_payload : Payload → Result Text
    pub decode_payload : Text → Result Payload
    pub decode-encode_op :
        (op : WalOp) (line : Text) → encode_op op ≡ ok line → decode_op line ≡ ok op
    pub encode_op-not-blank :
        (op : WalOp) (line : Text) → encode_op op ≡ ok line → is_blank line ≡ false
    pub decode-encode_payload :
        (p : Payload) (file : Text)
        → encode_payload p ≡ ok file
        → (q : Payload) × (decode_payload file ≡ ok q) × ((j : Text) → last_entry j q ≡ lookup j p)

-- What the file system answers to one call of each operation.
pub record AppendIo : Type 0 where
  pub mkdir : Option ℕ
  pub open_file : Option ℕ
  pub flush : Option ℕ
  pub sync : Option ℕ
  -- the lines, whole or torn, that a failing append leaves in the file
  pub residue : List Text

pub record SaveIo : Type 0 where
  pub mkdir : Option ℕ
  pub write : Option ℕ
  pub rename : Option ℕ

pub record TruncateIo : Type 0 where
  pub mkdir : Option ℕ
  pub write : Option ℕ
  -- whether a failing write has emptied the file
  pub emptied : Bool

pub record SyncIo : Type 0 where
  pub open_file : Option ℕ
  pub seek : Option ℕ
  pub sync : Option ℕ

pub record Backend : Type 0 where
  pub snapshot : Option Text
  pub wal : Option (List Text)
  pub sync_every : ℕ
  pub pending_ops : ℕ

abbrev pub lines : Option (List Text) → List Text
lines none = []
lines (some ls) = ls

-- The longest line that bufio.Scanner delivers with its default buffer.
abbrev pub max_line : ℕ
max_line = 65535

module _ (fl : Floats) (js : Json fl) where
  open fl use {F64}

  unfoldable pub encode_all : List (WalOp fl) → Result (List Text)
  encode_all [] = ok []
  encode_all (op ∷ ops) = do line ← js.encode_op op; rest ← encode_all ops; ok (line ∷ rest)

  -- AppendWALBatch from the opened file on
  unfoldable pub append_opened : AppendIo → List (WalOp fl) → Backend → Result (Unit {0}) × Backend
  append_opened io ops b = elim (encode_all ops) [
    | err e ↦ (err e, record b { wal = some (lines b.wal ++ io.residue) })
    | ok ls ↦ elim io.flush [
      | some e ↦ (err (system e), record b { wal = some (lines b.wal ++ io.residue) })
      | none ↦
          let b' = record b {
            wal = some (lines b.wal ++ ls);
            pending_ops = b.pending_ops + length ops;
          } in
          if ltb b'.pending_ops b.sync_every then (done, b') else elim io.sync [
            | some e ↦ (err (system e), b')
            | none ↦ (done, record b' { pending_ops = 0 })
          ]
    ]
  ]

  unfoldable pub append_wal_batch :
      AppendIo → List (WalOp fl) → Backend → Result (Unit {0}) × Backend
  append_wal_batch io [] b = (done, b)
  append_wal_batch io (op ∷ ops) b = elim io.mkdir [
    | some e ↦ (err (system e), b)
    | none ↦ elim io.open_file [
      | some e ↦ (err (system e), b)
      | none ↦ append_opened io (op ∷ ops) b
    ]
  ]

  -- the loop `payload[vec.ID] = vec.Values`
  unfoldable pub payload_from : Payload fl → List (Vector F64) → Payload fl
  payload_from m [] = m
  payload_from m (vec ∷ vecs) = payload_from (insert vec.id vec.values m) vecs

  -- The data goes to a temporary file, which the rename puts in place.
  unfoldable pub save_snapshot : SaveIo → List (Vector F64) → Backend → Result (Unit {0}) × Backend
  save_snapshot io vectors b = elim io.mkdir [
    | some e ↦ (err (system e), b)
    | none ↦ elim (js.encode_payload (payload_from [] vectors)) [
      | err e ↦ (err e, b)
      | ok file ↦ elim io.write [
        | some e ↦ (err (system e), b)
        | none ↦ elim io.rename [
          | some e ↦ (err (system e), b)
          | none ↦ (done, record b { snapshot = some file })
        ]
      ]
    ]
  ]

  unfoldable pub load_snapshot : Option ℕ → Backend → Result (Payload fl)
  load_snapshot read b = elim b.snapshot [
    | none ↦ ok []
    | some file ↦ elim read [ some e ↦ err (system e) | none ↦ js.decode_payload file ]
  ]

  -- The loop of ReplayWAL; `apply` carries the state of the caller. encoding/json skips the spaces
  -- that the code trims off a line.
  unfoldable pub scan_lines {ℓ} :
      {S : Type ℓ} → (WalOp fl → S → Result (Unit {0}) × S) → List Text → S → Result (Unit {0}) × S
  scan_lines apply [] s = (done, s)
  scan_lines apply (line ∷ rest) s = elim (ltb max_line (length line)) [
    | true ↦ (err line_too_long, s)
    | false ↦ elim (is_blank line) [
      | true ↦ scan_lines apply rest s
      | false ↦ elim (js.decode_op line) [
        | err e ↦ (err e, s)
        | ok op ↦
            let (r, s') = apply op s in
            elim r [
              | ok _ ↦ scan_lines apply rest s'
              | err skip_wal_op ↦ scan_lines apply rest s'
              | err e ↦ (err e, s')
            ]
      ]
    ]
  ]

  unfoldable pub replay_wal {ℓ} :
      {S : Type ℓ}
      → Option ℕ
      → (WalOp fl → S → Result (Unit {0}) × S)
      → Backend
      → S
      → Result (Unit {0}) × S
  replay_wal read apply b s = elim b.wal [
    | none ↦ (done, s)
    | some ls ↦ elim read [ some e ↦ (err (system e), s) | none ↦ scan_lines apply ls s ]
  ]

unfoldable pub truncate_wal : TruncateIo → Backend → Result (Unit {0}) × Backend
truncate_wal io b = elim io.mkdir [
  | some e ↦ (err (system e), b)
  | none ↦ elim io.write [
    | some e ↦ (err (system e), if io.emptied then record b { wal = some [] } else b)
    | none ↦ (done, record b { wal = some []; pending_ops = 0 })
  ]
]

unfoldable pub sync_backend : SyncIo → Backend → Result (Unit {0}) × Backend
sync_backend io b = elim (nat_eq b.pending_ops 0) [
  | true ↦ (done, b)
  | false ↦ elim io.open_file [
    | some e ↦ (err (system e), b)
    | none ↦
        let b' = record b { wal = some (lines b.wal) } in
        elim io.seek [
          | some e ↦ (err (system e), b')
          | none ↦ elim io.sync [
            | some e ↦ (err (system e), b')
            | none ↦ (done, record b' { pending_ops = 0 })
          ]
        ]
  ]
]
