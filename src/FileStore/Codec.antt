-- ===== src/FileStore/Codec.antt =====
-- encodeFileVectorRecord and decodeFileVectorPayload32 of internal/core/file_vector_store.go.
use lumenvec.Base.{
  ℕ, zero, suc, ◌+◌, ◌-◌, ◌*◌, ◌/◌, ◌%◌, List, [], ◌∷◌, ◌++◌, Text, length, take, drop, ltb, nat_eq,
  Result, ok, err, ◌>>=◌, unexpected_eof, unknown_record_op, if◌then◌else◌,
}
use lumenvec.Numeric.{Floats}

abbrev pub op_put_float64 : ℕ
op_put_float64 = 1

abbrev pub op_delete : ℕ
op_delete = 2

abbrev pub op_put : ℕ
op_put = 3

-- binary.LittleEndian.PutUint32 of uint32(n): the bytes of n modulo 2 ^ 32
unfoldable pub put_u32 : ℕ → List ℕ
put_u32 n = n % 256 ∷ n / 256 % 256 ∷ n / 65536 % 256 ∷ n / 16777216 % 256 ∷ []

-- binary.LittleEndian.Uint32; a shorter slice does not come up behind the length checks
unfoldable pub u32 : List ℕ → ℕ
u32 (a ∷ b ∷ c ∷ e ∷ _) = a + 256 * b + 65536 * c + 16777216 * e
u32 _ = 0

unfoldable pub put_u64 : ℕ → List ℕ
unfolding put_u32
put_u64 n = put_u32 (n % 4294967296) ++ put_u32 (n / 4294967296)

unfoldable pub u64 : List ℕ → ℕ
unfolding u32
u64 bs = u32 bs + 4294967296 * u32 (drop 4 bs)

-- fileVectorRecordValueBytes
unfoldable pub value_bytes : ℕ → Result ℕ
value_bytes op =
    if nat_eq op op_put
    then ok 4
    else if nat_eq op op_put_float64
    then ok 8
    else if nat_eq op op_delete
    then ok 8
    else err unknown_record_op

abbrev pub zeros : ℕ → List ℕ
zeros zero = []
zeros (suc n) = 0 ∷ zeros n

module _ (fl : Floats) where
  open fl use {F64, F32, to32, bits32, from_bits32, bits64, from_bits64}

  -- the loop over the values
  unfoldable pub put_values : ℕ → List F64 → List ℕ
  put_values op [] = []
  put_values op (x ∷ xs) =
      (if nat_eq op op_put_float64 then put_u64 (bits64 x) else put_u32 (bits32 (to32 x)))
      ++ put_values op xs

  abbrev pub record_length : Text → List F64 → ℕ → ℕ
  record_length id values width = 1 + 4 + length id + 4 + length values * width

  -- The payload of a record; the buffer is made of zeros, so what the values leave unwritten is 0.
  abbrev pub payload_of : ℕ → Text → List F64 → ℕ → List ℕ
  payload_of op id values width =
      op
      ∷ (put_u32 (length id)
          ++ (id
              ++ (put_u32 (length values)
                  ++ (put_values op values
                      ++ zeros (length values * width - length (put_values op values))))))

  unfoldable pub encode_record : ℕ → Text → List F64 → Result (List ℕ)
  encode_record op id values = do
    width ← value_bytes op
    ok (put_u32 (record_length id values width) ++ payload_of op id values width)

  -- fileVectorRecord32
  pub record Record32 : Type 0 where
    pub op : ℕ
    pub id : Text
    pub values : List F32

  unfoldable pub read_values : ℕ → ℕ → List ℕ → List F32
  read_values op zero bs = []
  read_values op (suc n) bs =
      if nat_eq op op_put_float64
      then to32 (from_bits64 (u64 bs)) ∷ read_values op n (drop 8 bs)
      else from_bits32 (u32 bs) ∷ read_values op n (drop 4 bs)

  -- from the count of values on
  unfoldable pub decode_values : ℕ → Text → List ℕ → Result Record32
  decode_values op id bs = do
    width ← value_bytes op
    if ltb (length (drop 4 bs)) (u32 bs * width)
        then err unexpected_eof
        else ok (record { op = op; id = id; values = read_values op (u32 bs) (drop 4 bs) })

  unfoldable pub decode_payload32 : List ℕ → Result Record32
  decode_payload32 [] = err unexpected_eof
  decode_payload32 (op ∷ bs) =
      if ltb (length (op ∷ bs)) 9
      then err unexpected_eof
      else if ltb (length (drop 4 bs)) (u32 bs + 4)
      then err unexpected_eof
      else decode_values op (take (u32 bs) (drop 4 bs)) (drop (u32 bs) (drop 4 bs))
