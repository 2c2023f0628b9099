-- ===== src/FileStore/Torn.antt =====
-- A file whose last record is cut short.
use lumenvec.Base.{
  ◌>>=◌, ℕ, zero, suc, ◌≤◌, ◌<◌, ◌≡◌, refl, sym, ◌∙◌, ap, subst, Bool-cases, inl, inr, true, false,
  List, [], ◌∷◌, ◌++◌, All, length, drop, ltb, nat_eq, Result, ok, err, arith, length-append,
}
use mathlib.Core.List.{append_assoc}
use lumenvec.Numeric.{Floats}
use lumenvec.FileStore.Codec.{u32}
use lumenvec.FileStore.RoundTrip.{u32-put_u32, drop-put_u32}
use lumenvec.FileStore.Rebuild.{Scan, scan_start, read_error, index_record, scan, rebuild_index}
use lumenvec.FileStore.Log.{
  Entry, payload, size, decoded, Fits, frame, file_of, written, written-file_of, length-payload,
  scan-step,
}

u32-append : (xs ys : List ℕ) → 4 ≤ length xs → u32 (xs ++ ys) ≡ u32 xs
unfolding u32
u32-append (a ∷ b ∷ c ∷ e ∷ xs) ys h = refl
u32-append (a ∷ b ∷ c ∷ []) ys h = absurd (omega arith)
u32-append (a ∷ b ∷ []) ys h = absurd (omega arith)
u32-append (a ∷ []) ys h = absurd (omega arith)
u32-append [] ys h = absurd (omega arith)

drop-append : (n : ℕ) (xs ys : List ℕ) → n ≤ length xs → drop n (xs ++ ys) ≡ drop n xs ++ ys
drop-append zero xs ys h = refl
drop-append (suc n) [] ys h = absurd (omega arith)
drop-append (suc n) (x ∷ xs) ys h = drop-append n xs ys (omega arith)

lt→ltb : (a b : ℕ) → a < b → ltb a b ≡ true
lt→ltb a b h = ground arith

module _ (fl : Floats) where
  open fl use {F64}

  -- What a cut-short append leaves: some of a record's bytes, but not all.
  pub record Torn (e : Entry fl) (part : List ℕ) : Type 0 where
    pub rest : List ℕ
    pub whole : part ++ rest ≡ frame fl e
    pub started : 0 < length part
    pub unfinished : 0 < length rest

  abbrev pub IsError {ℓ} : {A : Type ℓ} → Result A → Type 0
  IsError (ok a) = ⊥
  IsError (err e) = Unit

  read_error-IsError : (bs : List ℕ) → IsError (read_error fl bs)
  read_error-IsError [] = tt
  read_error-IsError (b ∷ bs) = tt

  scan-empty_fuel :
      (st : Scan) (log : List (Entry fl)) (part : List ℕ)
      → 0 < length part
      → IsError (scan fl zero st (file_of fl log ++ part))
  unfolding scan
  scan-empty_fuel st log part h =
      let there : nat_eq (length (file_of fl log ++ part)) 0 ≡ false =
        rw (length-append (file_of fl log) part) (ground arith) in
      rw (there, scan) tt

  scan-Torn :
      (fuel : ℕ) (st : Scan) (e : Entry fl) (part : List ℕ)
      → Fits fl e
      → Torn e part
      → IsError (scan fl fuel st part)
  unfolding scan
  scan-Torn zero st e part h t = ground (arith, t.started)
  scan-Torn (suc fuel) st e part h t = elim (Bool-cases (ltb (length part) 4)) [
    | inl short ↦ rw (there, short, scan) tt
    | inr long ↦
        let n = size fl e in
        let four : 4 ≤ length part = ground arith in
        let count : u32 part ≡ n =
          sym (u32-append part t.rest four)
          ∙ (ap u32 t.whole ∙ u32-put_u32 n (payload fl e) (omega arith)) in
        let left : drop 4 part ++ t.rest ≡ payload fl e =
          sym (drop-append 4 part t.rest four)
          ∙ (ap (drop 4) t.whole ∙ drop-put_u32 n (payload fl e)) in
        let missing : ltb (length (drop 4 part)) n ≡ true = lt→ltb _ _ (
          omega (
            arith,
            length-append {0} (drop 4 part) t.rest,
            ap length left,
            length-payload fl e,
            t.unfinished,
          )) in
        rw (there, long, count, missing, scan) (read_error-IsError (drop 4 part))
  ]
    where
      there : nat_eq (length part) 0 ≡ false
      there = let s = t.started in ground arith

  scan-tail :
      (log : List (Entry fl)) (fuel : ℕ) (st : Scan) (e : Entry fl) (part : List ℕ)
      → All (Fits fl) log
      → Fits fl e
      → Torn e part
      → IsError (scan fl fuel st (file_of fl log ++ part))
  scan-tail [] fuel st e part h f t = scan-Torn fuel st e part f t
  scan-tail (x ∷ log) zero st e part h f t = scan-empty_fuel st (x ∷ log) part t.started
  scan-tail (x ∷ log) (suc fuel) st e part h f t =
      subst IsError
        (sym (
          ap (scan fl (suc fuel) st) (append_assoc (frame fl x) (file_of fl log) part)
          ∙ scan-step fl fuel st x (file_of fl log ++ part) h.0))
        (scan-tail log fuel (index_record fl (decoded fl x) (size fl x) st) e part h.1 f t)

  -- A file of good records, the last of which is cut short, cannot be opened: the scan fails,
  -- however many records before it are whole. The records' lengths fit in 32 bits.
  pub rebuild-Torn :
      (log : List (Entry fl)) (e : Entry fl) (part : List ℕ)
      → All (Fits fl) log
      → Fits fl e
      → Torn e part
      → IsError (written fl log >>= λ file. rebuild_index fl (file ++ part))
  unfolding rebuild_index
  rebuild-Torn log e part h f t =
      rw (written-file_of fl log, rebuild_index)
        (scan-tail log (length (file_of fl log ++ part)) scan_start e part h f t)
