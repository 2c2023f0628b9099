-- ===== src/RateLimit/Bound.antt =====
-- How many requests of a client pass.
use lumenvec.Base.{
  ℕ, suc, ◌+◌, ◌-◌, ◌*◌, ◌≤◌, ◌≡◌, refl, sym, subst, ap, ◌∙◌, Bool, true, false, ◌&&◌, List, [],
  ◌∷◌, Option, none, some, Text, Text-Eq, text_eq_iff, ◌==◌, lookup, lookup-insert, ltb,
  if◌then◌else◌, arith, Bool-cases, inl, inr,
}
use native.Mathlib.Nat.{add-mul}
use lumenvec.RateLimit.{
  new_rate_limiter, TokenBucket, RateLimiter, burst, refill, take_token, allow,
}

-- The requests of a client that pass, among requests of all clients in their order.
abbrev pub passed : Text → List (Text × ℕ) → RateLimiter → ℕ
passed k [] rl = 0
passed k ((key, now) ∷ rs) rl =
    (if key == k && (allow key now rl).0 then 1 else 0) + passed k rs (allow key now rl).1

abbrev limiter_or : RateLimiter → Option RateLimiter → RateLimiter
limiter_or rl none = rl
limiter_or rl (some r) = r

-- Time splits.
gap : (a b c l : ℕ) → a ≤ b → b ≤ c → (c - a) * l ≡ (b - a) * l + (c - b) * l
gap a b c l h k = ap (λ (d : ℕ). d * l) (omega arith) ∙ add-mul (b - a) (c - b) l

-- The limiter after requests.
abbrev pub after : List (Text × ℕ) → RateLimiter → RateLimiter
after [] rl = rl
after ((key, now) ∷ rs) rl = after rs (allow key now rl).1

-- No bucket has more than the burst.
abbrev IsCapped : ℕ → ℕ → Option TokenBucket → Type 0
IsCapped limit window none = Unit
IsCapped limit window (some b) = b.tokens ≤ limit * window

refill-IsCapped :
    (rl : RateLimiter) (now : ℕ) (b : TokenBucket)
    → b.tokens ≤ burst rl
    → (refill rl now b).tokens ≤ burst rl
unfolding refill
refill-IsCapped rl now b h = elim (Bool-cases (ltb b.last now)) [
  | inr e ↦ rw (e, refill) h
  | inl e ↦ rw (e, refill) (ground arith)
]

take_token-IsCapped :
    (rl : RateLimiter) (now : ℕ) (o : Option TokenBucket)
    → IsCapped rl.limit rl.window o
    → (take_token rl now o).1.tokens ≤ burst rl
unfolding take_token
take_token-IsCapped rl now none h = omega arith
take_token-IsCapped rl now (some b) h =
    let full = refill-IsCapped rl now b h in
    elim (Bool-cases (ltb (refill rl now b).tokens rl.window)) [
      | inl poor ↦ rw (poor, take_token) full
      | inr rich ↦ rw (rich, take_token) (omega (arith, full))
    ]

allow-IsCapped :
    (k key : Text) (now : ℕ) (rl : RateLimiter)
    → IsCapped rl.limit rl.window (lookup k rl.buckets)
    → IsCapped rl.limit rl.window (lookup k (allow key now rl).1.buckets)
unfolding allow
allow-IsCapped k key now rl h =
    let b = (take_token rl now (lookup key rl.buckets)).1 in
    let found = lookup-insert key k b rl.buckets in
    elim (Bool-cases (key == k)) [
      | inr other ↦
          let kept : lookup k (allow key now rl).1.buckets ≡ lookup k rl.buckets =
            found ∙ rw other refl in
          subst (IsCapped rl.limit rl.window) (sym kept) h
      | inl here ↦
          let put : lookup k (allow key now rl).1.buckets ≡ some b = found ∙ rw here refl in
          let old : lookup k rl.buckets ≡ lookup key rl.buckets =
            ap (λ x. lookup x rl.buckets) (sym ((text_eq_iff key k).0 here)) in
          subst (IsCapped rl.limit rl.window) (sym put) (
            take_token-IsCapped rl now (lookup key rl.buckets)
              (subst (IsCapped rl.limit rl.window) old h))
    ]

after-IsCapped :
    (k : Text) (rs : List (Text × ℕ)) (rl : RateLimiter)
    → IsCapped rl.limit rl.window (lookup k rl.buckets)
    → IsCapped rl.limit rl.window (lookup k (after rs rl).buckets)
      × ((after rs rl).limit ≡ rl.limit)
      × ((after rs rl).window ≡ rl.window)
unfolding allow
after-IsCapped k [] rl h = (h, refl, refl)
after-IsCapped k ((key, now) ∷ rs) rl h =
    after-IsCapped k rs (allow key now rl).1 (allow-IsCapped k key now rl h)

module _ (start end : ℕ) where
  -- What a client may still spend from `start` to `end`, in units of 1 / window: what a bucket not
  -- used since `start` has earned before is at most the burst.
  abbrev pub spare : ℕ → ℕ → Option TokenBucket → ℕ
  spare limit window none = limit * window + (end - start) * limit
  spare limit window (some b) =
      if ltb b.last start
      then limit * window + (end - start) * limit
      else b.tokens + (end - b.last) * limit

  abbrev spent : ℕ → Bool → ℕ
  spent window true = window
  spent window false = 0

  refill-spare :
      (rl : RateLimiter) (now : ℕ) (b : TokenBucket)
      → start ≤ now
      → now ≤ end
      → b.tokens ≤ burst rl
      → ((refill rl now b).tokens + (end - (refill rl now b).last) * rl.limit
          ≤ spare rl.limit rl.window (some b))
        × (start ≤ (refill rl now b).last)
  unfolding refill
  refill-spare rl now b s e h = elim (Bool-cases (ltb b.last start)) [
    | inl old ↦
        let moved : ltb b.last now ≡ true = ground (arith, old, s) in
        rw (moved, refill, old) (ground (arith, gap start now end rl.limit s e), s)
    | inr new ↦ elim (Bool-cases (ltb b.last now)) [
      | inr late ↦ rw (late, refill, new) (omega arith, ground (arith, new))
      | inl early ↦
          rw (early, refill, new)
            (ground (arith, gap b.last now end rl.limit (ground (arith, early)) e), s)
    ]
  ]

  take_token-spare :
      (rl : RateLimiter) (now : ℕ) (o : Option TokenBucket)
      → rl.window ≤ burst rl
      → start ≤ now
      → now ≤ end
      → IsCapped rl.limit rl.window o
      → spent rl.window (take_token rl now o).0
          + spare rl.limit rl.window (some (take_token rl now o).1)
        ≤ spare rl.limit rl.window o
  unfolding take_token
  take_token-spare rl now none w s e h = ground (arith, gap start now end rl.limit s e)
  take_token-spare rl now (some b) w s e h =
      let (less, recent) = refill-spare rl now b s e h in
      let used : ltb (refill rl now b).last start ≡ false = ground (arith, recent) in
      elim (Bool-cases (ltb (refill rl now b).tokens rl.window)) [
        | inl poor ↦ rw (poor, take_token, used) (omega (arith, less))
        | inr rich ↦
            let enough : rl.window ≤ (refill rl now b).tokens = ground arith in
            rw (rich, take_token, used) (omega (arith, less, enough))
      ]

  abbrev pub AreTimes : List (Text × ℕ) → Type 0
  AreTimes [] = Unit
  AreTimes ((key, now) ∷ rs) = (start ≤ now) × (now ≤ end) × AreTimes rs

  passed-spare :
      (k : Text) (rs : List (Text × ℕ)) (rl : RateLimiter)
      → rl.window ≤ burst rl
      → AreTimes rs
      → IsCapped rl.limit rl.window (lookup k rl.buckets)
      → passed k rs rl * rl.window ≤ spare rl.limit rl.window (lookup k rl.buckets)
  unfolding allow
  passed-spare k [] rl w ts h = omega arith
  passed-spare k ((key, now) ∷ rs) rl w (s, e, ts) h =
      let answer = (take_token rl now (lookup key rl.buckets)).0 in
      let b = (take_token rl now (lookup key rl.buckets)).1 in
      let next = (allow key now rl).1 in
      let found = lookup-insert key k b rl.buckets in
      elim (Bool-cases (key == k)) [
        | inr other ↦
            let same : lookup k next.buckets ≡ lookup k rl.buckets = found ∙ rw other refl in
            rw other (
              omega (
                arith,
                passed-spare k rs next w ts (allow-IsCapped k key now rl h),
                ap (spare rl.limit rl.window) same,
              ))
        | inl here ↦
            let same : lookup k next.buckets ≡ some b = found ∙ rw here refl in
            let old : lookup key rl.buckets ≡ lookup k rl.buckets =
              ap (λ x. lookup x rl.buckets) ((text_eq_iff key k).0 here) in
            let less =
              take_token-spare rl now (lookup key rl.buckets) w s e
                (subst (IsCapped rl.limit rl.window) (sym old) h) in
            let later = passed-spare k rs next w ts (allow-IsCapped k key now rl h) in
            let all = ap (spare rl.limit rl.window) old in
            let left = ap (spare rl.limit rl.window) same in
            elim (Bool-cases answer) [
              | inl taken ↦
                  rw (here, taken)
                    (omega (
                      arith,
                      add-mul 1 (passed k rs next) rl.window,
                      ap (spent rl.window) taken,
                      less,
                      later,
                      all,
                      left,
                    ))
              | inr refused ↦
                  rw (here, refused)
                    (omega (arith, ap (spent rl.window) refused, less, later, all, left))
            ]
      ]

  spare-le :
      (limit window : ℕ) (o : Option TokenBucket)
      → IsCapped limit window o
      → spare limit window o ≤ limit * window + (end - start) * limit
  spare-le limit window none h = omega arith
  spare-le limit window (some b) h = elim (Bool-cases (ltb b.last start)) [
    | inl old ↦ rw old (omega arith)
    | inr new ↦ elim (Bool-cases (ltb end b.last)) [
      | inl past ↦
          let gone : end - b.last ≡ 0 = ground (arith, past) in
          let nothing : 0 * limit ≡ 0 = omega arith in
          let none_left : (end - b.last) * limit ≡ 0 = ap (λ (d : ℕ). d * limit) gone ∙ nothing in
          rw new (omega (arith, none_left))
      | inr inside ↦
          rw new (
            omega
              (arith, gap start b.last end limit (ground (arith, new)) (ground (arith, inside))))
    ]
  ]

  -- After any requests of any clients, a limiter made with a positive limit lets at most `limit`
  -- requests of one client pass among requests of any clients at times from `start` to `end`, and
  -- `limit` more for each window of time between `start` and `end`, in proportion: a client that was
  -- idle before `start` has no more than that.
  pub passed-le :
      (n window : ℕ) (k : Text) (before rs : List (Text × ℕ)) (rl : RateLimiter)
      → new_rate_limiter (suc n) window ≡ some rl
      → AreTimes rs
      → passed k rs (after before rl) * window ≤ suc n * window + (end - start) * suc n
  unfolding new_rate_limiter lookup
  passed-le n window k before rs rl made ts =
      let fresh : RateLimiter = record { buckets = []; limit = suc n; window = window } in
      let one_window : window ≤ suc n * window = omega (arith, add-mul 1 n window) in
      let (capped, limit, same) = after-IsCapped k before fresh tt in
      let used = after before fresh in
      let w : used.window ≤ used.limit * used.window = rw (limit, same) one_window in
      let cap : IsCapped used.limit used.window (lookup k used.buckets) = rw (limit, same) capped in
      let bound : passed k rs used * used.window
          ≤ used.limit * used.window + (end - start) * used.limit =
        omega (
          arith,
          passed-spare k rs used w ts cap,
          spare-le used.limit used.window (lookup k used.buckets) cap,
        ) in
      subst
        (λ (x : RateLimiter).
          passed k rs (after before x) * window ≤ suc n * window + (end - start) * suc n)
        (ap (limiter_or fresh) made) (rw (limit, same) at bound)
