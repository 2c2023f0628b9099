-- ===== src/Tests/Parts.antt =====
-- The theorems on the parts of the service at concrete inputs.
use lumenvec.Base.{
  ◌*◌, ◌+◌, ◌≤◌, Text, ◌⊎◌, false, ℕ, ◌≡◌, refl, List, [], ◌∷◌, ◌++◌, none, some, Text-Eq, bytes,
  ok, err, vector_exists, done, ◌>>=◌, arith, inl, length, lookup, insert, All, text_ltb, text_eq,
  ◌==◌, if◌then◌else◌,
}
use lumenvec.Base.Ints.{pos}
use lumenvec.Numeric.{Vector, to_float32, to_float64}
use lumenvec.Index.{Index, new_index, add_vector, delete_vector, search_vector}
use lumenvec.Index.Laws.{find, add_vector-IsKeyed, new_index-IsKeyed}
use lumenvec.Resolver.{Resolver, new_resolver, assign, remove, resolve}
use lumenvec.Resolver.Laws.{
  IsBijective, new_resolver-IsBijective, assign-IsBijective, resolve-assign, operations-IsBijective,
}
use lumenvec.OrderedIds.{OrderedIdIndex, page_after}
use lumenvec.OrderedIds.Pages.{page_after-take}
use lumenvec.FileStore.Codec.{op_put, encode_record, put_u32, put_values, decode_payload32}
use lumenvec.FileStore.RoundTrip.{decode-encode_record}
use lumenvec.FileStore.Rebuild.{rebuild_index}
use lumenvec.FileStore.Log.{Entry, Fits, written}
use lumenvec.FileStore.Read.{get_vector}
use lumenvec.FileStore.Reopen.{get_vector-rebuild}
use lumenvec.FileStore.HotCache.Laws
use lumenvec.FileStore.HotCache.{HotCache, put_hot_vector, get_hot_vector}
use lumenvec.FileStore.HotCache.Laws.{put_hot_vector-IsValid}
use lumenvec.FileStore.Torn.{Torn, IsError, rebuild-Torn}
use lumenvec.RateLimit.{new_rate_limiter}
use lumenvec.RateLimit.Bound.{passed, passed-le, after}
use lumenvec.Config.{default_config}
use lumenvec.Base.Strings.{trim_space, to_lower}
use lumenvec.Config.Defaults.{
  apply_security_defaults, normalize_security_profile, production_defaults,
  apply_ann_profile_defaults, apply_transport_defaults,
}
use lumenvec.Config.Env.{Environment, read_env, text_var, override_from_env}
use lumenvec.Config.Laws.{
  IsNormal, IsHardened, override_from_env-IsNormal, override_from_env-IsHardened,
}
use lumenvec.Index.Refinement.{operations-find}
use lumenvec.Index.Laws.{IsKeyed}
use lumenvec.Tests.Instances.{Number, one, two, numbers, sorted_set}

abbrev vec_a : Vector Number
vec_a = record { id = bytes "a"; values = one ∷ two ∷ [] }

abbrev index_a : Index numbers
index_a = (add_vector numbers vec_a (new_index numbers)).1

-- A second vector under the same id is refused.
operations-find_example :
    (search_vector numbers (bytes "a") index_a ≡ ok vec_a)
    × ((add_vector numbers vec_a index_a).0 ≡ err vector_exists)
    × (find numbers (add_vector numbers vec_a index_a).1 (bytes "a") ≡ some (one ∷ two ∷ []))
    × IsKeyed numbers (add_vector numbers vec_a index_a).1
    × ((delete_vector numbers (bytes "a") index_a).0 ≡ done)
    × (find numbers (delete_vector numbers (bytes "a") index_a).1 (bytes "a") ≡ none)
    × IsKeyed numbers (delete_vector numbers (bytes "a") index_a).1
unfolding add_vector find to_float32 to_float64 lookup insert text_eq
operations-find_example =
    operations-find numbers vec_a (bytes "a") index_a (bytes "a")
      (add_vector-IsKeyed numbers vec_a (new_index numbers) (new_index-IsKeyed numbers))

abbrev one_id : Resolver
one_id = (assign (bytes "a") new_resolver).1

one_id-IsBijective : IsBijective one_id
one_id-IsBijective = assign-IsBijective (bytes "a") new_resolver new_resolver-IsBijective

operations-IsBijective_example :
    IsBijective (assign (bytes "a") one_id).1 × IsBijective (remove (bytes "a") one_id)
operations-IsBijective_example = operations-IsBijective (bytes "a") one_id one_id-IsBijective

resolve-assign_example :
    resolve (assign (bytes "b") one_id).0 (assign (bytes "b") one_id).1 ≡ some (bytes "b")
resolve-assign_example = resolve-assign (bytes "b") one_id one_id-IsBijective

abbrev three_ids : OrderedIdIndex sorted_set
three_ids = record { tree = some (bytes "c" ∷ bytes "a" ∷ bytes "b" ∷ []) }

page_after-take_example : page_after sorted_set (bytes "a") (pos 1) three_ids ≡ bytes "b" ∷ []
unfolding text_ltb text_eq
page_after-take_example = page_after-take sorted_set (bytes "a") (pos 1) three_ids

decode-encode_record_example :
    (payload : List ℕ) × (encode_record numbers op_put (bytes "a") (one ∷ [])
      ≡ ok (put_u32 14 ++ payload))
    × (length payload ≡ 14)
    × (decode_payload32 numbers payload
        ≡ ok (record { op = op_put; id = bytes "a"; values = to_float32 numbers (one ∷ []) }))
decode-encode_record_example =
    decode-encode_record numbers op_put 4 (bytes "a") (one ∷ []) (inl (refl, refl)) (omega arith)
      (omega arith)

abbrev put_a : Entry numbers
put_a = Entry.put (bytes "a") (one ∷ [])

abbrev log_a : List (Entry numbers)
log_a = put_a ∷ Entry.put (bytes "b") (two ∷ []) ∷ Entry.delete (bytes "a") ∷ put_a ∷ []

log_a-Fits : All (Fits numbers) log_a
log_a-Fits = (omega arith, (omega arith, (omega arith, (omega arith, tt))))

abbrev torn_part : List ℕ
torn_part = 14 ∷ 0 ∷ 0 ∷ 0 ∷ op_put ∷ 1 ∷ []

torn_part-Torn : Torn numbers put_a torn_part
unfolding put_u32 put_values
torn_part-Torn = record {
  rest = 0 ∷ 0 ∷ 0 ∷ 97 ∷ 1 ∷ 0 ∷ 0 ∷ 0 ∷ 0 ∷ 0 ∷ 0x80 ∷ 0x3f ∷ [];
  whole = refl;
  started = omega arith;
  unfinished = omega arith;
}

rebuild-Torn_example :
    IsError numbers (written numbers log_a >>= λ file. rebuild_index numbers (file ++ torn_part))
rebuild-Torn_example =
    rebuild-Torn numbers log_a put_a torn_part log_a-Fits (omega arith) torn_part-Torn

abbrev production : Environment
production name = if name == bytes "VECTOR_DB_SECURITY_PROFILE" then bytes " Production " else []

override_from_env-IsNormal_example : IsNormal (override_from_env production default_config)
override_from_env-IsNormal_example = override_from_env-IsNormal production default_config

production_profile :
    (override_from_env production default_config).security.profile ≡ bytes "production"
unfolding override_from_env read_env text_var apply_security_defaults normalize_security_profile
    production_defaults apply_ann_profile_defaults apply_transport_defaults trim_space to_lower
    text_eq
production_profile = refl

override_from_env-IsHardened_example :
    IsHardened (override_from_env production default_config).security
override_from_env-IsHardened_example =
    override_from_env-IsHardened production default_config production_profile

get_vector-rebuild_example :
    (do
      file ← written numbers log_a
      st ← rebuild_index numbers file
      get_vector numbers (some file) st.offsets (bytes "a"))
    ≡ ok (record { id = bytes "a"; values = to_float64 numbers (to_float32 numbers (one ∷ [])) })
unfolding text_eq
get_vector-rebuild_example = get_vector-rebuild numbers log_a (bytes "a") log_a-Fits

-- A cache of one place, which is taken.
abbrev full_cache : HotCache numbers
full_cache = record { order = (bytes "a", one ∷ []) ∷ []; max_items = pos 1 }

put_hot_vector-IsValid_example :
    Laws.IsValid numbers 0 (put_hot_vector numbers (bytes "b") (two ∷ []) full_cache)
    × ((get_hot_vector numbers
          (bytes "b")
          (put_hot_vector numbers (bytes "b") (two ∷ []) full_cache)).0
        ≡ some (two ∷ []))
    × ((j : Text)
        → bytes "b" == j ≡ false
        → ((get_hot_vector numbers j (put_hot_vector numbers (bytes "b") (two ∷ []) full_cache)).0
            ≡ (get_hot_vector numbers j full_cache).0)
          ⊎ ((get_hot_vector numbers j (put_hot_vector numbers (bytes "b") (two ∷ []) full_cache)).0
              ≡ none))
unfolding lookup
put_hot_vector-IsValid_example =
    put_hot_vector-IsValid numbers 0 (bytes "b") (two ∷ []) full_cache
      (record { limit = refl; size = omega arith; distinct = (refl, tt) })

-- Three requests of a client within a second, where two may pass.
abbrev requests : List (Text × ℕ)
requests = (bytes "x", 0) ∷ (bytes "x", 1) ∷ (bytes "y", 2) ∷ (bytes "x", 3) ∷ []

abbrev earlier : List (Text × ℕ)
earlier = (bytes "x", 0) ∷ (bytes "x", 9) ∷ (bytes "x", 9) ∷ []

passed-le_example :
    passed
        (bytes "x")
        requests
        (after earlier (record { buckets = []; limit = 2; window = 1000000000 }))
      * 1000000000
    ≤ 2 * 1000000000 + 3 * 2
unfolding new_rate_limiter
passed-le_example =
    passed-le 0 3 1 1000000000 (bytes "x") earlier requests
      (record { buckets = []; limit = 2; window = 1000000000 }) refl
      (
        omega arith,
        omega arith,
        (omega arith, omega arith, (omega arith, omega arith, (omega arith, omega arith, tt))),
      )
