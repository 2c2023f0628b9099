-- ===== src/Tests/Formats.antt =====
-- A concrete encoding of log lines and snapshots, in place of encoding/json.
use lumenvec.Base.{
  ℕ, suc, ◌+◌, ◌≡◌, refl, ap, sym, ◌∙◌, ◌≤◌, false, List, [], ◌∷◌, ◌++◌, Option, none, some, Text,
  Text-Eq, length, take, drop, take_prefix, drop_prefix, lookup, Result, ok, err, is_blank, nat_eq,
  unexpected_eof, if◌then◌else◌, arith,
}
use lumenvec.Persistence.{WalOp, Payload, last_entry, Json}
use lumenvec.Tests.Instances.{Number, nought, one, two, numbers}

abbrev digit : Number → ℕ
digit nought = 48
digit one = 49
digit two = 50

abbrev digits : List Number → List ℕ
digits [] = []
digits (x ∷ xs) = digit x ∷ digits xs

abbrev number : ℕ → Number
number n = if nat_eq n 48 then nought else if nat_eq n 49 then one else two

abbrev numbers_of : List ℕ → List Number
numbers_of [] = []
numbers_of (n ∷ ns) = number n ∷ numbers_of ns

number-digit : (x : Number) → number (digit x) ≡ x
number-digit nought = refl
number-digit one = refl
number-digit two = refl

numbers_of-digits : (xs : List Number) → numbers_of (digits xs) ≡ xs
numbers_of-digits [] = refl
numbers_of-digits (x ∷ xs) = λ i. number-digit x i ∷ numbers_of-digits xs i

length-digits : (xs : List Number) → length (digits xs) ≡ length xs
length-digits [] = refl
length-digits (x ∷ xs) = ap suc (length-digits xs)

abbrev encode_line : WalOp numbers → Text
encode_line (WalOp.upsert id values) = 117 ∷ length id ∷ (id ++ digits values)
encode_line (WalOp.delete id) = 100 ∷ id
encode_line (WalOp.other id) = 111 ∷ id

abbrev decode_line : Text → Result (WalOp numbers)
decode_line [] = err unexpected_eof
decode_line (op ∷ bs) =
    if nat_eq op 100
    then ok (WalOp.delete bs)
    else if nat_eq op 111
    then ok (WalOp.other bs)
    else decode_upsert bs
  where
    decode_upsert : Text → Result (WalOp numbers)
    decode_upsert [] = err unexpected_eof
    decode_upsert (n ∷ bs) = ok (WalOp.upsert (take n bs) (numbers_of (drop n bs)))

pub decode-encode_line : (op : WalOp numbers) → decode_line (encode_line op) ≡ ok op
decode-encode_line (WalOp.upsert id values) =
    rw (take_prefix id (digits values), drop_prefix id (digits values), numbers_of-digits values)
decode-encode_line (WalOp.delete id) = refl
decode-encode_line (WalOp.other id) = refl

letter-not-blank : (op : ℕ) (bs : Text) → 97 ≤ op → op ≤ 122 → is_blank (op ∷ bs) ≡ false
unfolding is_blank
letter-not-blank op [] h k = ground arith
letter-not-blank op (a ∷ []) h k = ground arith
letter-not-blank op (a ∷ b ∷ bs) h k = ground arith

pub encode_line-not-blank : (op : WalOp numbers) → is_blank (encode_line op) ≡ false
encode_line-not-blank (WalOp.upsert id values) =
    letter-not-blank 117 (length id ∷ (id ++ digits values)) (omega arith) (omega arith)
encode_line-not-blank (WalOp.delete id) = letter-not-blank 100 id (omega arith) (omega arith)
encode_line-not-blank (WalOp.other id) = letter-not-blank 111 id (omega arith) (omega arith)

-- The last entry comes first in the file, behind the count of entries.
abbrev encode_entry : Text → List Number → Text → Text
encode_entry k v rest = length k ∷ length v ∷ (k ++ (digits v ++ rest))

abbrev encode_entries : Payload numbers → Text → Text
encode_entries [] rest = rest
encode_entries ((k, v) ∷ m) rest = encode_entries m (encode_entry k v rest)

abbrev decode_entries : ℕ → Text → Payload numbers
decode_entries (suc count) (n ∷ m ∷ bs) =
    (take n bs, numbers_of (take m (drop n bs))) ∷ decode_entries count (drop m (drop n bs))
decode_entries _ _ = []

abbrev onto : Payload numbers → Payload numbers → Payload numbers
onto [] q = q
onto (e ∷ m) q = onto m (e ∷ q)

decode-encode_entry :
    (count : ℕ) (k : Text) (v : List Number) (rest : Text)
    → decode_entries (suc count) (encode_entry k v rest) ≡ (k, v) ∷ decode_entries count rest
decode-encode_entry count k v rest =
    let tail : drop (length v) (digits v ++ rest) ≡ rest =
      ap (λ (n : ℕ). drop n (digits v ++ rest)) (sym (length-digits v))
      ∙ drop_prefix (digits v) rest in
    let head : take (length v) (digits v ++ rest) ≡ digits v =
      ap (λ (n : ℕ). take n (digits v ++ rest)) (sym (length-digits v))
      ∙ take_prefix (digits v) rest in
    rw (
      take_prefix k (digits v ++ rest),
      drop_prefix k (digits v ++ rest),
      head,
      tail,
      numbers_of-digits v,
    )

decode-encode_entries :
    (m : Payload numbers) (count : ℕ) (rest : Text)
    → decode_entries (length m + count) (encode_entries m rest) ≡ onto m (decode_entries count rest)
decode-encode_entries [] count rest = ap (λ (n : ℕ). decode_entries n rest) (omega arith)
decode-encode_entries ((k, v) ∷ m) count rest =
    ap (λ (n : ℕ). decode_entries n (encode_entries m (encode_entry k v rest))) (omega arith)
    ∙ (decode-encode_entries m (suc count) (encode_entry k v rest)
        ∙ ap (onto m) (decode-encode_entry count k v rest))

abbrev or_lookup : Text → Payload numbers → Option (List Number) → Option (List Number)
or_lookup j m (some w) = some w
or_lookup j m none = lookup j m

pub last_entry-onto :
    (j : Text) (m q : Payload numbers)
    → last_entry numbers j (onto m q) ≡ or_lookup j m (last_entry numbers j q)
unfolding lookup
last_entry-onto j [] q = ground arith
last_entry-onto j ((k, v) ∷ m) q = ground (arith, last_entry-onto j m ((k, v) ∷ q))

abbrev encode_file : Payload numbers → Text
encode_file m = length m ∷ encode_entries m []

abbrev decode_file : Text → Result (Payload numbers)
decode_file [] = err unexpected_eof
decode_file (n ∷ bs) = ok (decode_entries n bs)

pub decode-encode_file : (m : Payload numbers) → decode_file (encode_file m) ≡ ok (onto m [])
decode-encode_file m =
    ap (λ (n : ℕ). ok (decode_entries n (encode_entries m []))) (omega arith)
    ∙ ap (λ (q : Payload numbers). ok q) (decode-encode_entries m 0 [])

-- Two texts that a result can hold are equal where the results are.
contents : Result Text → Text
contents (ok t) = t
contents (err e) = []

unfoldable pub plain_json : Json numbers
unfolding contents
plain_json = record {
  encode_op = λ op. ok (encode_line op);
  decode_op = decode_line;
  encode_payload = λ m. ok (encode_file m);
  decode_payload = decode_file;
  decode-encode_op = λ op line h. ap decode_line (sym (ap contents h)) ∙ decode-encode_line op;
  encode_op-not-blank = λ op line h. ap is_blank (sym (ap contents h)) ∙ encode_line-not-blank op;
  decode-encode_payload = λ m file h. (
    onto m [],
    ap decode_file (sym (ap contents h)) ∙ decode-encode_file m,
    λ j. last_entry-onto j m [],
  );
}
