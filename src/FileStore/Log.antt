-- ===== src/FileStore/Log.antt =====
-- Reading a file of records back: the scan of the encodings of a log.
use lumenvec.Base.{
  ℕ, zero, suc, ◌+◌, ◌^◌, ◌≤◌, ◌<◌, ◌≡◌, refl, sym, ◌∙◌, ap, inl, inr, false, List, [], ◌∷◌, ◌++◌,
  Text, All, length, take, drop, ltb, nat_eq, Result, ◌>>=◌, ok, arith, length-append, take_prefix,
  drop_prefix,
}
use mathlib.Core.List.{append_assoc}
use lumenvec.Numeric.{Floats, to_float32}
use lumenvec.FileStore.Codec.{
  encode_record, value_bytes, op_put, op_put_float64, op_delete, put_u32, u32, put_values,
  record_length, payload_of, Record32, decode_payload32,
}
use lumenvec.FileStore.RoundTrip.{
  length-payload_of, u32-put_u32, drop-put_u32, length-put_u32, length-put_values,
  decode-payload_of, decode-delete,
}
use lumenvec.FileStore.Rebuild.{Scan, scan_start, index_record, scan, rebuild_index}

module _ (fl : Floats) where
  open fl use {F64}

  -- What the store appends: puts, deletions, and the puts of the older format.
  pub data Entry : Type 0 where
    put : Text → List F64 → Entry
    put_float64 : Text → List F64 → Entry
    delete : Text → Entry

  abbrev pub payload : Entry → List ℕ
  payload (put id values) = payload_of fl op_put id values 4
  payload (put_float64 id values) = payload_of fl op_put_float64 id values 8
  payload (delete id) = payload_of fl op_delete id [] 8

  abbrev pub size : Entry → ℕ
  size (put id values) = record_length fl id values 4
  size (put_float64 id values) = record_length fl id values 8
  size (delete id) = record_length fl id [] 8

  abbrev pub decoded : Entry → Record32 fl
  decoded (put id values) = record { op = op_put; id = id; values = to_float32 fl values }
  decoded (put_float64 id values) = record {
    op = op_put_float64;
    id = id;
    values = to_float32 fl values;
  }
  decoded (delete id) = record { op = op_delete; id = id; values = [] }

  -- The length of the record with its own four bytes fits in 32 bits.
  abbrev pub Fits : Entry → Type 0
  Fits e = 4 + size e < 2 ^ 32

  abbrev pub frame : Entry → List ℕ
  frame e = put_u32 (size e) ++ payload e

  abbrev pub file_of : List Entry → List ℕ
  file_of [] = []
  file_of (e ∷ es) = frame e ++ file_of es

  abbrev pub replay : List Entry → Scan → Scan
  replay [] st = st
  replay (e ∷ es) st = replay es (index_record fl (decoded e) (size e) st)

  pub length-payload : (e : Entry) → length (payload e) ≡ size e
  unfolding put_values
  length-payload (put id values) =
      length-payload_of fl op_put 4 id values
        (length-put_values fl op_put 4 values (inl (refl, refl)))
  length-payload (put_float64 id values) =
      length-payload_of fl op_put_float64 8 id values
        (length-put_values fl op_put_float64 8 values (inr (refl, refl)))
  length-payload (delete id) = length-payload_of fl op_delete 8 id [] (omega arith)

  pub decode-payload : (e : Entry) → Fits e → decode_payload32 fl (payload e) ≡ ok (decoded e)
  decode-payload (put id values) h =
      decode-payload_of fl op_put 4 id values (inl (refl, refl)) (omega arith) (omega arith)
  decode-payload (put_float64 id values) h =
      decode-payload_of fl op_put_float64 8 id values (inr (refl, refl)) (omega arith) (omega arith)
  decode-payload (delete id) h = decode-delete fl id (omega arith)

  -- One round of the loop, from what it reads.
  scan-round :
      (fuel : ℕ) (st : Scan) (bs body : List ℕ) (n : ℕ) (r : Record32 fl)
      → nat_eq (length bs) 0 ≡ false
      → ltb (length bs) 4 ≡ false
      → u32 bs ≡ n
      → drop 4 bs ≡ body
      → ltb (length body) n ≡ false
      → decode_payload32 fl (take n body) ≡ ok r
      → scan fl (suc fuel) st bs ≡ scan fl fuel (index_record fl r n st) (drop n body)
  unfolding scan
  scan-round fuel st bs body n r there long count rest whole good =
      rw (there, long, count, rest, whole, count, rest, good, count, rest, scan)

  scan-frame :
      (fuel : ℕ) (st : Scan) (e : Entry) (rest : List ℕ)
      → Fits e
      → scan fl (suc fuel) st (put_u32 (size e) ++ (payload e ++ rest))
        ≡ scan fl fuel (index_record fl (decoded e) (size e) st) rest
  unfolding scan
  scan-frame fuel st e rest h =
      let n = size e in
      let bs = payload e ++ rest in
      let total : length (put_u32 n ++ bs) ≡ 4 + (n + length rest) =
        length-put_u32 n bs
        ∙ ap (λ (m : ℕ). 4 + m)
            (length-append (payload e) rest ∙ ap (λ (m : ℕ). m + length rest) (length-payload e)) in
      let there : nat_eq (length (put_u32 n ++ bs)) 0 ≡ false = rw total (ground arith) in
      let long : ltb (length (put_u32 n ++ bs)) 4 ≡ false = rw total (ground arith) in
      let whole : ltb (length bs) n ≡ false =
        rw (length-append (payload e) rest, length-payload e) (ground arith) in
      let head : take n bs ≡ payload e =
        ap (λ (m : ℕ). take m bs) (sym (length-payload e)) ∙ take_prefix (payload e) rest in
      let tail : drop n bs ≡ rest =
        ap (λ (m : ℕ). drop m bs) (sym (length-payload e)) ∙ drop_prefix (payload e) rest in
      scan-round fuel st (put_u32 n ++ bs) bs n (decoded e) there long
        (u32-put_u32 n bs (omega arith)) (drop-put_u32 n bs) whole
        (ap (decode_payload32 fl) head ∙ decode-payload e h)
      ∙ ap (scan fl fuel (index_record fl (decoded e) n st)) tail

  pub scan-step :
      (fuel : ℕ) (st : Scan) (e : Entry) (rest : List ℕ)
      → Fits e
      → scan fl (suc fuel) st (frame e ++ rest)
        ≡ scan fl fuel (index_record fl (decoded e) (size e) st) rest
  scan-step fuel st e rest h =
      ap (scan fl (suc fuel) st) (append_assoc (put_u32 (size e)) (payload e) rest)
      ∙ scan-frame fuel st e rest h

  pub length-frame : (e : Entry) → length (frame e) ≡ 4 + size e
  length-frame e = length-put_u32 (size e) (payload e) ∙ ap (λ (m : ℕ). 4 + m) (length-payload e)

  scan-log :
      (log : List Entry) (fuel : ℕ) (st : Scan)
      → All Fits log
      → length (file_of log) ≤ fuel
      → scan fl fuel st (file_of log) ≡ ok (replay log st)
  unfolding scan
  scan-log [] zero st h f = refl
  scan-log [] (suc fuel) st h f = refl
  scan-log (e ∷ log) zero st h f =
      absurd (omega (arith, length-append {0} (frame e) (file_of log), length-frame e))
  scan-log (e ∷ log) (suc fuel) st h f =
      scan-step fuel st e (file_of log) h.0
      ∙ scan-log log fuel (index_record fl (decoded e) (size e) st) h.1
          (omega (arith, length-append {0} (frame e) (file_of log), length-frame e))

  -- The store writes each entry by encode_record.
  abbrev pub encode : Entry → Result (List ℕ)
  encode (put id values) = encode_record fl op_put id values
  encode (put_float64 id values) = encode_record fl op_put_float64 id values
  encode (delete id) = encode_record fl op_delete id []

  unfoldable pub written : List Entry → Result (List ℕ)
  written [] = ok []
  written (e ∷ es) = do bs ← encode e; rest ← written es; ok (bs ++ rest)

  encode-frame : (e : Entry) → encode e ≡ ok (frame e)
  unfolding encode_record value_bytes
  encode-frame (put id values) = refl
  encode-frame (put_float64 id values) = refl
  encode-frame (delete id) = refl

  pub written-file_of : (log : List Entry) → written log ≡ ok (file_of log)
  unfolding written
  written-file_of [] = refl
  written-file_of (e ∷ log) = rw (encode-frame e, written-file_of log)

  pub rebuild-file_of :
      (log : List Entry)
      → All Fits log
      → rebuild_index fl (file_of log) ≡ ok (replay log scan_start)
  unfolding rebuild_index
  rebuild-file_of log h = scan-log log (length (file_of log)) scan_start h (omega arith)

  -- Opening the file that the encodings of a log make up succeeds, and gives the offsets and the
  -- record counts that the log's records leave one after the other. The records' lengths fit in
  -- 32 bits.
  pub rebuild-written :
      (log : List Entry)
      → All Fits log
      → (written log >>= rebuild_index fl) ≡ ok (replay log scan_start)
  rebuild-written log h = rw (written-file_of log) (rebuild-file_of log h)
