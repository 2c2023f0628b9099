-- ===== src/Resolver.antt =====
-- internal/core/id_resolver.go: external ids and the numbers that the ANN index knows them by.
pub mod Laws
use lumenvec.Base.{
  ℕ, ◌+◌, List, [], Option, none, some, Text, Text-Eq, ℕ-Eq, Map, lookup, insert, delete,
}

pub record Resolver : Type 0 where
  pub id_to_internal : Map Text ℕ
  pub internal_to_id : Map ℕ Text
  pub next_internal : ℕ

abbrev pub new_resolver : Resolver
new_resolver = record { id_to_internal = []; internal_to_id = []; next_internal = 0 }

unfoldable pub assign : Text → Resolver → ℕ × Resolver
assign id r = elim (lookup id r.id_to_internal) [
  | some internal ↦ (internal, r)
  | none ↦ (
    r.next_internal + 1,
    record {
      id_to_internal = insert id (r.next_internal + 1) r.id_to_internal;
      internal_to_id = insert (r.next_internal + 1) id r.internal_to_id;
      next_internal = r.next_internal + 1;
    },
  )
]

unfoldable pub resolve : ℕ → Resolver → Option Text
resolve internal r = lookup internal r.internal_to_id

unfoldable pub remove : Text → Resolver → Resolver
remove id r = elim (lookup id r.id_to_internal) [
  | none ↦ r
  | some internal ↦ record r {
    id_to_internal = delete id r.id_to_internal;
    internal_to_id = delete internal r.internal_to_id;
  }
]
