-- ===== src/Ann/Valid/Live.antt =====
-- The candidates of a search that are not marked as deleted.
use lumenvec.Base.{
  ℕ, zero, suc, ◌≤◌, ◌≡◌, refl, ap, inl, inr, Bool, true, false, List, [], ◌∷◌, length, nat_eq,
  nat_eq_iff, arith, All, Bool-cases, ℕ-Eq,
}
use lumenvec.Base.Arrays.{get_elem?, count}
use lumenvec.Numeric.{Floats}
use lumenvec.Distance.{Arithmetic}
use lumenvec.Ann.{DistancePair, Random}
use lumenvec.Ann.Search.Progress.{holds}
use lumenvec.Ann.Insert.{Ann}
use lumenvec.Ann.Query.{is_deleted, drop_deleted, live_candidates}
use lumenvec.Ann.Valid.{IsBody}

module _ {D : Type 0} where
  -- `live` are those of the candidates that are not marked as deleted.
  pub record Live (deleted : List Bool) (candidates live : List (DistancePair D)) : Type 1 where
    pub all :
        (P : DistancePair D → Type 0)
        → All P candidates
        → All (λ c. P c × (is_deleted (get_elem? deleted c.id) ≡ false)) live
    pub fewer : (p : DistancePair D → Bool) → count p live ≤ count p candidates
    pub short : length live ≤ length candidates
    pub kept :
        (v : ℕ)
        → is_deleted (get_elem? deleted v) ≡ false
        → count (holds v) live ≡ count (holds v) candidates

  drop_deleted-Live :
      (deleted : List Bool) (cs : List (DistancePair D)) → Live deleted cs (drop_deleted deleted cs)
  unfolding drop_deleted
  drop_deleted-Live deleted [] = record {
    all = λ P h. tt;
    fewer = λ p. omega arith;
    short = omega arith;
    kept = λ v e. refl;
  }
  drop_deleted-Live deleted (c ∷ cs) =
      let rest = drop_deleted-Live deleted cs in
      elim (Bool-cases (is_deleted (get_elem? deleted c.id))) [
        | inl gone ↦
            rw (gone, drop_deleted)
              (record {
                all = λ P h. rest.all P h.1;
                fewer = λ p. omega (arith, rest.fewer p);
                short = omega (arith, rest.short);
                kept = λ v e. elim (Bool-cases (nat_eq v c.id)) [
                  | inr other ↦ rw other (omega (arith, rest.kept v e))
                  | inl same ↦
                      let clash =
                        ap (λ (x : ℕ). is_deleted (get_elem? deleted x))
                          ((nat_eq_iff v c.id).0 same) in
                      absurd (ground (arith, e, clash, gone))
                ];
              })
        | inr live ↦
            rw (live, drop_deleted)
              (record {
                all = λ P h. ((h.0, live), rest.all P h.1);
                fewer = λ p. omega (arith, rest.fewer p);
                short = omega (arith, rest.short);
                kept = λ v e. omega (arith, rest.kept v e);
              })
      ]

pub none_deleted :
    (deleted : List Bool) (i : ℕ)
    → count (λ gone. gone) deleted ≡ 0
    → is_deleted (get_elem? deleted i) ≡ false
none_deleted [] i h = refl
none_deleted (true ∷ flags) i h = absurd (omega arith)
none_deleted (false ∷ flags) zero h = refl
none_deleted (false ∷ flags) (suc i) h = none_deleted flags i (omega arith)

with_flag :
    {D : Type 0} (deleted : List Bool) (P : DistancePair D → Type 0) (cs : List (DistancePair D))
    → count (λ gone. gone) deleted ≡ 0
    → All P cs
    → All (λ c. P c × (is_deleted (get_elem? deleted c.id) ≡ false)) cs
with_flag deleted P [] h all = tt
with_flag deleted P (c ∷ cs) h (first, all) =
    ((first, none_deleted deleted c.id h), with_flag deleted P cs h all)

module _ (fl : Floats) (ar : Arithmetic fl) (rd : Random) where
  open fl use {F32, F64}

  pub live_candidates-Live :
      (a : Ann fl ar rd) (cs : List (DistancePair F64))
      → IsBody fl ar rd a
      → Live a.deleted cs (live_candidates fl ar rd a cs)
  unfolding live_candidates
  live_candidates-Live a cs h = elim (Bool-cases (nat_eq a.deleted_count 0)) [
    | inr some_gone ↦ rw some_gone (drop_deleted-Live a.deleted cs)
    | inl none_gone ↦
        let no_flag : count (λ gone. gone) a.deleted ≡ 0 = ground (arith, h.counted) in
        rw none_gone (record {
          all = λ P all. with_flag a.deleted P cs no_flag all;
          fewer = λ p. omega arith;
          short = omega arith;
          kept = λ v e. refl;
        })
  ]
