-- ===== src/Resolver/Laws.antt =====
-- The two maps of internal/core/id_resolver.go as inverses of each other.
use lumenvec.Base.{
  Option-cases, inl, inr, ℕ, ◌+◌, ◌≤◌, ◌≡◌, some, Text, Text-Eq, ℕ-Eq, text_eq_iff, lookup,
  lookup-insert, lookup-delete, arith,
}
use lumenvec.Resolver.{Resolver, new_resolver, assign, resolve, remove}

-- Each map undoes the other, and no number is above the last one given out.
pub record IsBijective (r : Resolver) : Type 0 where
  pub forth :
      (id : Text) (n : ℕ)
      → lookup id r.id_to_internal ≡ some n
      → lookup n r.internal_to_id ≡ some id
  pub back :
      (id : Text) (n : ℕ)
      → lookup n r.internal_to_id ≡ some id
      → lookup id r.id_to_internal ≡ some n
  pub issued : (id : Text) (n : ℕ) → lookup id r.id_to_internal ≡ some n → n ≤ r.next_internal

pub new_resolver-IsBijective : IsBijective new_resolver
unfolding lookup
new_resolver-IsBijective = record {
  forth = λ id n h. ground arith;
  back = λ id n h. ground arith;
  issued = λ id n h. ground arith;
}

-- Assign keeps the maps inverse to each other and the numbers at most the last one given out.
pub assign-IsBijective : (id : Text) (r : Resolver) → IsBijective r → IsBijective (assign id r).1
unfolding assign
assign-IsBijective id r v = record {
  forth = λ j n h. ground (
    arith,
    v.forth j n,
    v.issued j n,
    lookup-insert id j (r.next_internal + 1) r.id_to_internal,
    lookup-insert (r.next_internal + 1) n id r.internal_to_id,
    text_eq_iff id j,
  );
  back = λ j n h. ground (
    arith,
    v.back j n,
    v.back id n,
    lookup-insert id j (r.next_internal + 1) r.id_to_internal,
    lookup-insert (r.next_internal + 1) n id r.internal_to_id,
    text_eq_iff id j,
  );
  issued = λ j n h.
      ground (arith, v.issued j n, lookup-insert id j (r.next_internal + 1) r.id_to_internal);
}

-- Remove keeps the maps inverse to each other and the numbers at most the last one given out.
pub remove-IsBijective : (id : Text) (r : Resolver) → IsBijective r → IsBijective (remove id r)
unfolding remove
remove-IsBijective id r v = elim (Option-cases (lookup id r.id_to_internal)) [
  | inl miss ↦ rw (miss, remove) v
  | inr (m, hit) ↦
      rw (hit, remove)
        (record {
          forth = λ j n h. ground (
            arith,
            v.forth j n,
            v.back id n,
            v.forth id m,
            lookup-delete id j r.id_to_internal,
            lookup-delete m n r.internal_to_id,
            text_eq_iff id j,
          );
          back = λ j n h. ground (
            arith,
            v.back j n,
            v.forth id m,
            lookup-delete id j r.id_to_internal,
            lookup-delete m n r.internal_to_id,
            text_eq_iff id j,
          );
          issued = λ j n h. ground (arith, v.issued j n, lookup-delete id j r.id_to_internal);
        })
]

-- Assign and Remove keep the maps inverse to each other and the numbers at most the last one given
-- out, if they were.
pub operations-IsBijective :
    (id : Text) (r : Resolver)
    → IsBijective r
    → IsBijective (assign id r).1 × IsBijective (remove id r)
operations-IsBijective id r v = (assign-IsBijective id r v, remove-IsBijective id r v)

-- Where the maps are inverse to each other, Lookup gives the id back for the number that Assign
-- returned for it.
pub resolve-assign :
    (id : Text) (r : Resolver) → IsBijective r → resolve (assign id r).0 (assign id r).1 ≡ some id
unfolding assign resolve
resolve-assign id r v = elim (Option-cases (lookup id r.id_to_internal)) [
  | inl miss ↦
      rw (miss, assign)
        (ground
          (arith, lookup-insert (r.next_internal + 1) (r.next_internal + 1) id r.internal_to_id))
  | inr (m, hit) ↦ rw (hit, assign) (v.forth id m hit)
]
