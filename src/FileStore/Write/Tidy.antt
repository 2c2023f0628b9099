-- ===== src/FileStore/Write/Tidy.antt =====
-- The ordered ids and the hot cache that the file store keeps beside its offsets.
use lumenvec.Base.{
  ℕ, ◌%◌, ◌^◌, ◌≡◌, refl, sym, ap, ◌∙◌, inl, inr, Bool, true, false, List, Option, none, some, Text,
  Text-Eq, text_eq_iff, ◌==◌, Map, lookup, insert, delete, lookup-insert, lookup-delete, arith,
  delete-AreDistinct, length-delete-le, Bool-cases, if◌then◌else◌,
}
use lumenvec.Numeric.{Floats, Vector, to_float32}
use lumenvec.OrderedIds
use lumenvec.OrderedIds.{BTree, OrderedIdIndex, contains, ensure}
use lumenvec.FileStore.Rebuild.{Meta}
use lumenvec.FileStore.HotCache.{HotCache, put_hot_vector, delete_hot_vector, clear_hot_vectors}
use lumenvec.FileStore.HotCache.Laws.{IsValid, put_hot_vector-IsValid, get_hot_vector-lookup}
use lumenvec.FileStore.Write.{FileVectorStore, note_put}

abbrev pub is_held {ℓ} : {A : Type ℓ} → Option A → Bool
is_held none = false
is_held (some _) = true

module _ (fl : Floats) (bt : BTree) where
  open fl use {F64, F32}

  -- The ordered ids are those of the offsets.
  abbrev pub Lists : OrderedIdIndex bt → Map Text Meta → Type 0
  Lists ids m = (j : Text) → contains j (bt.items (ensure bt ids)) ≡ is_held (lookup j m)

  -- The ordered ids are those of the offsets, and the hot cache keeps its limit and has for no id
  -- other values than `vals`.
  pub record IsTidy (vals : Text → Option (List F32)) (s : FileVectorStore fl bt) : Type 0 where
    pub capacity : ℕ
    pub listed : Lists s.ids s.offsets
    pub hot : IsValid fl capacity s.hot
    pub fresh : (j : Text) (v : List F32) → lookup j s.hot.order ≡ some v → vals j ≡ some v

  abbrev pub with_values :
      Text → Option (List F32) → (Text → Option (List F32)) → Text → Option (List F32)
  with_values id o vals j = if id == j then o else vals j

  pub clear-IsValid :
      (n : ℕ) (c : HotCache fl) → IsValid fl n c → IsValid fl n (clear_hot_vectors fl c)
  unfolding clear_hot_vectors
  clear-IsValid n c h = record { limit = h.limit; size = omega arith; distinct = tt }

  delete-IsValid :
      (n : ℕ) (id : Text) (c : HotCache fl)
      → IsValid fl n c
      → IsValid fl n (delete_hot_vector fl id c)
  unfolding delete_hot_vector
  delete-IsValid n id c h = record {
    limit = h.limit;
    size = omega (arith, length-delete-le id c.order, h.size);
    distinct = delete-AreDistinct id c.order h.distinct;
  }

  put-fresh :
      (n : ℕ) (id : Text) (values : List F32) (c : HotCache fl) (vals : Text → Option (List F32))
      → IsValid fl n c
      → ((j : Text) (v : List F32) → lookup j c.order ≡ some v → vals j ≡ some v)
      → (j : Text) (v : List F32) → lookup j (put_hot_vector fl id values c).order ≡ some v
      → with_values id (some values) vals j ≡ some v
  put-fresh n id values c vals h old j v at =
      let (_, found, kept) = put_hot_vector-IsValid fl n id values c h in
      let new = put_hot_vector fl id values c in
      elim (Bool-cases (id == j)) [
        | inl same ↦
            let here : lookup id new.order ≡ some v =
              ap (λ x. lookup x new.order) ((text_eq_iff id j).0 same) ∙ at in
            rw same (sym found ∙ get_hot_vector-lookup fl id new ∙ here)
        | inr other ↦ elim (kept j other) [
          | inl as_before ↦ rw other (
              old j v (
                sym (get_hot_vector-lookup fl j c)
                ∙ sym as_before
                ∙ get_hot_vector-lookup fl j new
                ∙ at))
          | inr gone ↦ absurd (ground (arith, gone, get_hot_vector-lookup fl j new, at))
        ]
      ]

  pub upsert-Lists :
      (id : Text) (meta : Meta) (ids : OrderedIdIndex bt) (m : Map Text Meta)
      → Lists ids m
      → Lists (OrderedIds.upsert bt id ids) (insert id meta m)
  unfolding OrderedIds.upsert
  upsert-Lists id meta ids m h j =
      ground (arith, bt.contains-insert id j (ensure bt ids), lookup-insert id j meta m, h j)

  put-Lists :
      (o : Option Meta) (id : Text) (meta : Meta) (ids : OrderedIdIndex bt) (m : Map Text Meta)
      → lookup id m ≡ o
      → Lists ids m
      → Lists (elim o [ some _ ↦ ids | none ↦ OrderedIds.upsert bt id ids ]) (insert id meta m)
  put-Lists none id meta ids m new h j = upsert-Lists id meta ids m h j
  put-Lists (some old) id meta ids m found h j = elim (Bool-cases (id == j)) [
    | inl same ↦
        let here : lookup j m ≡ some old =
          ap (λ (k : Text). lookup k m) (sym ((text_eq_iff id j).0 same)) ∙ found in
        ground (arith, lookup-insert id j meta m, h j, same, here)
    | inr other ↦ ground (arith, lookup-insert id j meta m, h j, other)
  ]

  pub note_put-IsTidy :
      (vec : Vector F64) (offset n : ℕ) (s : FileVectorStore fl bt)
      (vals : Text → Option (List F32))
      → IsTidy vals s
      → IsTidy
          (with_values vec.id (some (to_float32 fl vec.values)) vals)
          (note_put fl bt vec offset n s)
  unfolding note_put OrderedIds.upsert
  note_put-IsTidy vec offset n s vals h = record {
    capacity = h.capacity;
    listed =
        put-Lists (lookup vec.id s.offsets) vec.id
          (record { record_offset = offset; record_length = n % 2 ^ 32; deleted = false }) s.ids
          s.offsets refl h.listed;
    hot = (put_hot_vector-IsValid fl h.capacity vec.id (to_float32 fl vec.values) s.hot h.hot).0;
    fresh = put-fresh h.capacity vec.id (to_float32 fl vec.values) s.hot vals h.hot h.fresh;
  }

  pub delete-IsTidy :
      (id : Text) (s s' : FileVectorStore fl bt) (vals : Text → Option (List F32))
      → s'.offsets ≡ delete id s.offsets
      → s'.ids ≡ OrderedIds.delete bt id s.ids
      → s'.hot ≡ delete_hot_vector fl id s.hot
      → IsTidy vals s
      → IsTidy (with_values id none vals) s'
  unfolding OrderedIds.delete delete_hot_vector
  delete-IsTidy id s s' vals offsets ids hot h = record {
    capacity = h.capacity;
    listed = λ j.
        rw (offsets, ids)
          (ground (
            arith,
            bt.contains-delete id j (ensure bt s.ids),
            lookup-delete id j s.offsets,
            h.listed j,
          ));
    hot = rw hot (delete-IsValid h.capacity id s.hot h.hot);
    fresh = λ j v at.
        let kept : lookup j (delete id s.hot.order) ≡ some v =
          ap (λ (c : HotCache fl). lookup j c.order) (sym hot) ∙ at in
        ground (arith, kept, lookup-delete id j s.hot.order, h.fresh j v);
  }
