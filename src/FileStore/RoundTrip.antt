-- ===== src/FileStore/RoundTrip.antt =====
-- Decoding an encoded record gives the id and the values, as float32.
use lumenvec.Base.{
  zero, suc, ℕ, ◌+◌, ◌-◌, ◌*◌, ◌^◌, ◌<◌, ◌≡◌, refl, ap, ◌∙◌, false, List, [], ◌∷◌, ◌++◌, Text,
  length, drop, ltb, nat_eq, ok, arith, length-append, take_prefix, drop_prefix, Bool-cases, ◌⊎◌,
  inl, inr,
}
use mathlib.Core.List.{append-nil, append_assoc}
use lumenvec.Numeric.{Floats, to_float32}
use lumenvec.FileStore.Codec.{
  record_length, zeros, encode_record, op_put, op_put_float64, op_delete, put_u32, u32, put_u64,
  u64, value_bytes, put_values, payload_of, read_values, decode_values, decode_payload32,
}

pub u32-put_u32 : (n : ℕ) (bs : List ℕ) → n < 2 ^ 32 → u32 (put_u32 n ++ bs) ≡ n
unfolding u32 put_u32
u32-put_u32 n bs h = omega arith

pub drop-put_u32 : (n : ℕ) (bs : List ℕ) → drop 4 (put_u32 n ++ bs) ≡ bs
unfolding put_u32
drop-put_u32 n bs = refl

u64-put_u64 : (n : ℕ) (bs : List ℕ) → n < 2 ^ 64 → u64 (put_u64 n ++ bs) ≡ n
unfolding u64 put_u64
u64-put_u64 n bs h = omega arith

drop-put_u64 : (n : ℕ) (bs : List ℕ) → drop 8 (put_u64 n ++ bs) ≡ bs
unfolding put_u64
drop-put_u64 n bs = refl

pub length-put_u32 : (n : ℕ) (bs : List ℕ) → length (put_u32 n ++ bs) ≡ 4 + length bs
unfolding put_u32
length-put_u32 n bs = omega arith

length-zeros : (n : ℕ) → length (zeros n) ≡ n
length-zeros zero = refl
length-zeros (suc n) = ap suc (length-zeros n)

module _ (fl : Floats) where
  open fl use {F64, F32, to32, bits32, from_bits32, bits64, from_bits64}

  -- The two kinds of record that hold values, with the width of a value.
  abbrev pub IsPut : ℕ → ℕ → Type 0
  IsPut op width = ((op ≡ op_put) × (width ≡ 4)) ⊎ ((op ≡ op_put_float64) × (width ≡ 8))

  read-put_values :
      (op : ℕ) (values : List F64) (bs : List ℕ)
      → read_values fl op (length values) (put_values fl op values ++ bs) ≡ to_float32 fl values
  unfolding read_values put_values to_float32
  read-put_values op [] bs = refl
  read-put_values op (x ∷ xs) bs = elim (Bool-cases (nat_eq op op_put_float64)) [
    | inl wide ↦ rw (
      wide,
      append_assoc (put_u64 (bits64 x)) (put_values fl op xs) bs,
      u64-put_u64 (bits64 x) (put_values fl op xs ++ bs) (fl.bits64-lt x),
      drop-put_u64 (bits64 x) (put_values fl op xs ++ bs),
      fl.from_bits64-bits64 x,
      read-put_values op xs bs,
    )
    | inr narrow ↦ rw (
      narrow,
      append_assoc (put_u32 (bits32 (to32 x))) (put_values fl op xs) bs,
      u32-put_u32 (bits32 (to32 x)) (put_values fl op xs ++ bs) (fl.bits32-lt (to32 x)),
      drop-put_u32 (bits32 (to32 x)) (put_values fl op xs ++ bs),
      fl.from_bits32-bits32 (to32 x),
      read-put_values op xs bs,
    )
  ]

  pub length-put_values :
      (op width : ℕ) (values : List F64)
      → IsPut op width
      → length (put_values fl op values) ≡ length values * width
  unfolding put_values put_u32 put_u64
  length-put_values op width [] h = omega arith
  length-put_values op width (x ∷ xs) h = let ih = length-put_values op width xs h in ground arith

  -- The fixed fields of a payload, read back.
  decode-fields :
      (op : ℕ) (id : Text) (count : ℕ) (body : List ℕ)
      → length id < 2 ^ 32
      → decode_payload32 fl (op ∷ (put_u32 (length id) ++ (id ++ (put_u32 count ++ body))))
        ≡ decode_values fl op id (put_u32 count ++ body)
  unfolding decode_payload32
  decode-fields op id count body h =
      let rest = id ++ (put_u32 count ++ body) in
      let size : length rest ≡ length id + (4 + length body) =
        length-append id (put_u32 count ++ body)
        ∙ ap (λ (n : ℕ). length id + n) (length-put_u32 count body) in
      let long : ltb (length (op ∷ (put_u32 (length id) ++ rest))) 9 ≡ false =
        rw (length-put_u32 (length id) rest, size) (ground arith) in
      let fits : ltb (length rest) (length id + 4) ≡ false = rw size (ground arith) in
      rw (
        long,
        u32-put_u32 (length id) rest h,
        drop-put_u32 (length id) rest,
        fits,
        take_prefix id (put_u32 count ++ body),
        drop_prefix id (put_u32 count ++ body),
      )

  decode-body :
      (op width : ℕ) (id : Text) (values : List F64)
      → IsPut op width
      → length values < 2 ^ 32
      → decode_values fl op id (put_u32 (length values) ++ (put_values fl op values ++ []))
        ≡ ok (record { op = op; id = id; values = to_float32 fl values })
  unfolding decode_values value_bytes
  decode-body op width id values p h =
      let body = put_values fl op values ++ [] in
      let size : length body ≡ length values * width =
        ap length (append-nil (put_values fl op values)) ∙ length-put_values op width values p in
      let fits : ltb (length body) (length values * width) ≡ false = rw size (ground arith) in
      let known : value_bytes op ≡ ok width = ground arith in
      rw (
        known,
        u32-put_u32 (length values) body h,
        drop-put_u32 (length values) body,
        fits,
        read-put_values op values [],
      )

  pub length-payload_of :
      (op width : ℕ) (id : Text) (values : List F64)
      → length (put_values fl op values) ≡ length values * width
      → length (payload_of fl op id values width) ≡ record_length fl id values width
  length-payload_of op width id values h =
      let pv = put_values fl op values in
      let pad = zeros (length values * width - length pv) in
      omega (
        arith,
        h,
        length-zeros (length values * width - length pv),
        length-append {0} pv pad,
        length-put_u32 (length values) (pv ++ pad),
        length-append {0} id (put_u32 (length values) ++ (pv ++ pad)),
        length-put_u32 (length id) (id ++ (put_u32 (length values) ++ (pv ++ pad))),
      )

  -- The payload of a put of either width.
  pub decode-payload_of :
      (op width : ℕ) (id : Text) (values : List F64)
      → IsPut op width
      → length id < 2 ^ 32
      → length values < 2 ^ 32
      → decode_payload32 fl (payload_of fl op id values width)
        ≡ ok (record { op = op; id = id; values = to_float32 fl values })
  decode-payload_of op width id values p hid hv =
      let none_left : length values * width - length (put_values fl op values) ≡ 0 =
        omega (arith, length-put_values op width values p) in
      rw (none_left, decode-fields op id (length values) (put_values fl op values ++ []) hid)
        (decode-body op width id values p hv)

  -- A deletion carries no values.
  pub decode-delete :
      (id : Text)
      → length id < 2 ^ 32
      → decode_payload32 fl (payload_of fl op_delete id [] 8)
        ≡ ok (record { op = op_delete; id = id; values = [] })
  unfolding put_values decode_values value_bytes read_values u32 put_u32
  decode-delete id h = rw (decode-fields op_delete id 0 [] h)

  -- encodeFileVectorRecord accepts a put of either width and writes the length of a payload and the
  -- payload, which decodes to the same op and id and to the values as float32. The id and the list
  -- of values are shorter than 2 ^ 32.
  pub decode-encode_record :
      (op width : ℕ) (id : Text) (values : List F64)
      → IsPut op width
      → length id < 2 ^ 32
      → length values < 2 ^ 32
      → (payload : List ℕ) × (encode_record fl op id values
          ≡ ok (put_u32 (record_length fl id values width) ++ payload))
        × (length payload ≡ record_length fl id values width)
        × (decode_payload32 fl payload
            ≡ ok (record { op = op; id = id; values = to_float32 fl values }))
  unfolding encode_record value_bytes
  decode-encode_record op width id values p hid hv =
      let known : value_bytes op ≡ ok width = ground arith in
      (
        payload_of fl op id values width,
        rw known,
        length-payload_of op width id values (length-put_values op width values p),
        decode-payload_of op width id values p hid hv,
      )
