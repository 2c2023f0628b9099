-- ===== src/Distance/Blocks.antt =====
-- The distance to four queries at once is the four distances.
use lumenvec.Base.{
  ℕ, suc, ◌+◌, ◌≤◌, ◌<◌, ◌≡◌, refl, List, [], ◌∷◌, Option, none, some, length, arith,
}
use lumenvec.Numeric.{Floats}
use lumenvec.Distance.{
  Arithmetic, square, add_four, sum_tail, sum_blocks, squared_distance32_same_len, all_four,
  advance_four, advance_one, four_tails, four_blocks, squared_distance32x4_same_len, Lane,
}

module _ (fl : Floats) (ar : Arithmetic fl) where
  open fl use {F64, F32}

  -- A lane that goes on by one place, and by four.
  abbrev Advanced : Option (Lane fl ar) → (F64 → List F32 → Option F64) → Option F64 → ℕ → Type 0
  Advanced o next whole n =
      (sum : F64) × (xs : List F32) × (o ≡ some (sum, xs)) × (whole ≡ next sum xs) × (length xs ≡ n)

  advance_one-Advanced :
      (p : Lane fl ar) (b : F32) (bs : List F32)
      → length p.1 ≡ suc (length bs)
      → Advanced
          (advance_one fl ar p.0 p.1 b)
          (λ sum xs. sum_tail fl ar sum xs bs)
          (sum_tail fl ar p.0 p.1 (b ∷ bs))
          (length bs)
  unfolding advance_one sum_tail
  advance_one-Advanced (sum, []) b bs h = absurd (omega arith)
  advance_one-Advanced (sum, a ∷ xs) b bs h = (_, xs, refl, refl, omega arith)

  advance_four-Advanced :
      (p : Lane fl ar) (b0 b1 b2 b3 : F32) (bs : List F32)
      → length p.1 ≡ 4 + length bs
      → Advanced
          (advance_four fl ar p.0 p.1 b0 b1 b2 b3)
          (λ sum xs. sum_blocks fl ar sum xs bs)
          (sum_blocks fl ar p.0 p.1 (b0 ∷ b1 ∷ b2 ∷ b3 ∷ bs))
          (length bs)
  unfolding advance_four sum_blocks
  advance_four-Advanced (sum, []) b0 b1 b2 b3 bs h = absurd (omega arith)
  advance_four-Advanced (sum, a0 ∷ []) b0 b1 b2 b3 bs h = absurd (omega arith)
  advance_four-Advanced (sum, a0 ∷ a1 ∷ []) b0 b1 b2 b3 bs h = absurd (omega arith)
  advance_four-Advanced (sum, a0 ∷ a1 ∷ a2 ∷ []) b0 b1 b2 b3 bs h = absurd (omega arith)
  advance_four-Advanced (sum, a0 ∷ a1 ∷ a2 ∷ a3 ∷ xs) b0 b1 b2 b3 bs h =
      (_, xs, refl, refl, omega arith)

  sum_tail-done : (p : Lane fl ar) → length p.1 ≡ 0 → sum_tail fl ar p.0 p.1 [] ≡ some p.0
  unfolding sum_tail
  sum_tail-done (sum, []) h = refl
  sum_tail-done (sum, a ∷ xs) h = absurd (omega arith)

  sum_blocks-short :
      (p : Lane fl ar) (bs : List F32)
      → length p.1 < 4
      → sum_blocks fl ar p.0 p.1 bs ≡ sum_tail fl ar p.0 p.1 bs
  unfolding sum_blocks
  sum_blocks-short (sum, []) bs h = refl
  sum_blocks-short (sum, a0 ∷ []) bs h = refl
  sum_blocks-short (sum, a0 ∷ a1 ∷ []) bs h = refl
  sum_blocks-short (sum, a0 ∷ a1 ∷ a2 ∷ []) bs h = refl
  sum_blocks-short (sum, a0 ∷ a1 ∷ a2 ∷ a3 ∷ xs) bs h = absurd (omega arith)

  -- Four queries, each of the length of a vector.
  abbrev Fits : Lane fl ar → Lane fl ar → Lane fl ar → Lane fl ar → List F32 → Type 0
  Fits p q r s bs =
      (length p.1 ≡ length bs)
      × (length q.1 ≡ length bs)
      × (length r.1 ≡ length bs)
      × (length s.1 ≡ length bs)

  four_tails-sum_tail :
      (bs : List F32) (p q r s : Lane fl ar)
      → Fits p q r s bs
      → four_tails fl ar p q r s bs
        ≡ all_four
            (sum_tail fl ar p.0 p.1 bs)
            (sum_tail fl ar q.0 q.1 bs)
            (sum_tail fl ar r.0 r.1 bs)
            (sum_tail fl ar s.0 s.1 bs)
  unfolding four_tails
  four_tails-sum_tail [] p q r s (hp, hq, hr, hs) =
      rw (sum_tail-done p hp, sum_tail-done q hq, sum_tail-done r hr, sum_tail-done s hs) refl
  four_tails-sum_tail (b ∷ bs) p q r s (hp, hq, hr, hs) =
      let (sp, xp, ap, tp, lp) = advance_one-Advanced p b bs hp in
      let (sq, xq, aq, tq, lq) = advance_one-Advanced q b bs hq in
      let (sr, xr, ar4, tr, lr) = advance_one-Advanced r b bs hr in
      let (ss, xs, as4, ts, ls) = advance_one-Advanced s b bs hs in
      rw (ap, four_tails, aq, ar4, as4, tp, tq, tr, ts)
        (four_tails-sum_tail bs (sp, xp) (sq, xq) (sr, xr) (ss, xs) (lp, lq, lr, ls))

  four_blocks-short :
      (bs : List F32) (p q r s : Lane fl ar)
      → length bs < 4
      → Fits p q r s bs
      → four_tails fl ar p q r s bs
        ≡ all_four
            (sum_blocks fl ar p.0 p.1 bs)
            (sum_blocks fl ar q.0 q.1 bs)
            (sum_blocks fl ar r.0 r.1 bs)
            (sum_blocks fl ar s.0 s.1 bs)
  four_blocks-short bs p q r s few (hp, hq, hr, hs) =
      rw
        (
          sum_blocks-short p bs (omega arith),
          sum_blocks-short q bs (omega arith),
          sum_blocks-short r bs (omega arith),
          sum_blocks-short s bs (omega arith),
        )
        (four_tails-sum_tail bs p q r s (hp, hq, hr, hs))

  four_blocks-sum_blocks :
      (bs : List F32) (p q r s : Lane fl ar)
      → Fits p q r s bs
      → four_blocks fl ar p q r s bs
        ≡ all_four
            (sum_blocks fl ar p.0 p.1 bs)
            (sum_blocks fl ar q.0 q.1 bs)
            (sum_blocks fl ar r.0 r.1 bs)
            (sum_blocks fl ar s.0 s.1 bs)
  unfolding four_blocks
  four_blocks-sum_blocks [] p q r s h = four_blocks-short [] p q r s (omega arith) h
  four_blocks-sum_blocks (b0 ∷ []) p q r s h = four_blocks-short (b0 ∷ []) p q r s (omega arith) h
  four_blocks-sum_blocks (b0 ∷ b1 ∷ []) p q r s h =
      four_blocks-short (b0 ∷ b1 ∷ []) p q r s (omega arith) h
  four_blocks-sum_blocks (b0 ∷ b1 ∷ b2 ∷ []) p q r s h =
      four_blocks-short (b0 ∷ b1 ∷ b2 ∷ []) p q r s (omega arith) h
  four_blocks-sum_blocks (b0 ∷ b1 ∷ b2 ∷ b3 ∷ bs) p q r s (hp, hq, hr, hs) =
      let (sp, xp, ap, tp, lp) = advance_four-Advanced p b0 b1 b2 b3 bs (omega arith) in
      let (sq, xq, aq, tq, lq) = advance_four-Advanced q b0 b1 b2 b3 bs (omega arith) in
      let (sr, xr, ar4, tr, lr) = advance_four-Advanced r b0 b1 b2 b3 bs (omega arith) in
      let (ss, xs, as4, ts, ls) = advance_four-Advanced s b0 b1 b2 b3 bs (omega arith) in
      rw (ap, four_blocks, aq, ar4, as4, tp, tq, tr, ts)
        (four_blocks-sum_blocks bs (sp, xp) (sq, xq) (sr, xr) (ss, xs) (lp, lq, lr, ls))

  -- For four queries of the length of a vector, SquaredEuclideanDistance32x4SameLen gives the four
  -- results of SquaredEuclideanDistance32SameLen.
  pub squared_distance32x4-four :
      (a0 a1 a2 a3 b : List F32)
      → length a0 ≡ length b
      → length a1 ≡ length b
      → length a2 ≡ length b
      → length a3 ≡ length b
      → squared_distance32x4_same_len fl ar a0 a1 a2 a3 b
        ≡ all_four
            (squared_distance32_same_len fl ar a0 b)
            (squared_distance32_same_len fl ar a1 b)
            (squared_distance32_same_len fl ar a2 b)
            (squared_distance32_same_len fl ar a3 b)
  unfolding squared_distance32x4_same_len squared_distance32_same_len
  squared_distance32x4-four a0 a1 a2 a3 b h0 h1 h2 h3 =
      four_blocks-sum_blocks b (ar.zero64, a0) (ar.zero64, a1) (ar.zero64, a2) (ar.zero64, a3)
        (h0, h1, h2, h3)

  sum_tail-some :
      (sum : F64) (xs bs : List F32)
      → length xs ≤ length bs
      → (d : F64) × (sum_tail fl ar sum xs bs ≡ some d)
  unfolding sum_tail
  sum_tail-some sum [] bs h = (sum, refl)
  sum_tail-some sum (a ∷ xs) [] h = absurd (omega arith)
  sum_tail-some sum (a ∷ xs) (b ∷ bs) h =
      sum_tail-some (ar.add64 sum (square fl ar a b)) xs bs (omega arith)

  sum_blocks-some :
      (sum : F64) (xs bs : List F32)
      → length xs ≡ length bs
      → (d : F64) × (sum_blocks fl ar sum xs bs ≡ some d)
  unfolding sum_blocks
  sum_blocks-some sum [] bs h = sum_tail-some sum [] bs (omega arith)
  sum_blocks-some sum (a0 ∷ []) bs h = sum_tail-some sum (a0 ∷ []) bs (omega arith)
  sum_blocks-some sum (a0 ∷ a1 ∷ []) bs h = sum_tail-some sum (a0 ∷ a1 ∷ []) bs (omega arith)
  sum_blocks-some sum (a0 ∷ a1 ∷ a2 ∷ []) bs h =
      sum_tail-some sum (a0 ∷ a1 ∷ a2 ∷ []) bs (omega arith)
  sum_blocks-some sum (a0 ∷ a1 ∷ a2 ∷ a3 ∷ xs) (b0 ∷ b1 ∷ b2 ∷ b3 ∷ bs) h =
      sum_blocks-some (add_four fl ar sum a0 a1 a2 a3 b0 b1 b2 b3) xs bs (omega arith)
  sum_blocks-some sum (a0 ∷ a1 ∷ a2 ∷ a3 ∷ xs) bs h = absurd (omega arith)

  pub squared_distance32-some :
      (a b : List F32)
      → length a ≡ length b
      → (d : F64) × (squared_distance32_same_len fl ar a b ≡ some d)
  unfolding squared_distance32_same_len
  squared_distance32-some a b h = sum_blocks-some ar.zero64 a b h

  sum_tail-none :
      (sum : F64) (xs bs : List F32) → length bs < length xs → sum_tail fl ar sum xs bs ≡ none
  unfolding sum_tail
  sum_tail-none sum [] bs h = absurd (omega arith)
  sum_tail-none sum (a ∷ xs) [] h = refl
  sum_tail-none sum (a ∷ xs) (b ∷ bs) h =
      sum_tail-none (ar.add64 sum (square fl ar a b)) xs bs (omega arith)

  sum_blocks-none :
      (sum : F64) (xs bs : List F32) → length bs < length xs → sum_blocks fl ar sum xs bs ≡ none
  unfolding sum_blocks
  sum_blocks-none sum [] bs h = sum_tail-none sum [] bs (omega arith)
  sum_blocks-none sum (a0 ∷ []) bs h = sum_tail-none sum (a0 ∷ []) bs (omega arith)
  sum_blocks-none sum (a0 ∷ a1 ∷ []) bs h = sum_tail-none sum (a0 ∷ a1 ∷ []) bs (omega arith)
  sum_blocks-none sum (a0 ∷ a1 ∷ a2 ∷ []) bs h =
      sum_tail-none sum (a0 ∷ a1 ∷ a2 ∷ []) bs (omega arith)
  sum_blocks-none sum (a0 ∷ a1 ∷ a2 ∷ a3 ∷ xs) (b0 ∷ b1 ∷ b2 ∷ b3 ∷ bs) h =
      sum_blocks-none (add_four fl ar sum a0 a1 a2 a3 b0 b1 b2 b3) xs bs (omega arith)
  sum_blocks-none sum (a0 ∷ a1 ∷ a2 ∷ a3 ∷ xs) [] h = refl
  sum_blocks-none sum (a0 ∷ a1 ∷ a2 ∷ a3 ∷ xs) (b0 ∷ []) h = refl
  sum_blocks-none sum (a0 ∷ a1 ∷ a2 ∷ a3 ∷ xs) (b0 ∷ b1 ∷ []) h = refl
  sum_blocks-none sum (a0 ∷ a1 ∷ a2 ∷ a3 ∷ xs) (b0 ∷ b1 ∷ b2 ∷ []) h = refl

  pub squared_distance32-none :
      (a b : List F32) → length b < length a → squared_distance32_same_len fl ar a b ≡ none
  unfolding squared_distance32_same_len
  squared_distance32-none a b h = sum_blocks-none ar.zero64 a b h
