-- ===== src/Oid/Resolving.antt =====
-- What the loops of the four tables put in the new cache.
use mathlib.Core.List.{Memᴰ}
use datafusion_postgres.Prelude.{
  ℕ, true, none, some, List, [], ◌∷◌, ◌≡◌, ◌↔◌, ◌⊎◌, refl, sym, ap, inl, inr, arith, eq_iff,
  Bool-cases,
}
use datafusion_postgres.Oid.{
  OidCacheKey, catalog, schema, table, key_eq, Cache, insert, contains_key, fixed_oid, resolve_oid,
  resolve_all,
}

pub key_eq_iff : (k j : OidCacheKey) → (key_eq k j ≡ true) ↔ (k ≡ j)
unfolding key_eq
key_eq_iff (catalog a) (catalog b) = ground (arith, eq_iff a b)
key_eq_iff (schema a s) (schema b t) = ground (arith, eq_iff a b, eq_iff s t)
key_eq_iff (table a s x) (table b t y) = ground (arith, eq_iff a b, eq_iff s t, eq_iff x y)
key_eq_iff _ _ = ground arith

-- A cached key whose OID agrees with the fixed one, if it has a fixed one.
abbrev pub Settled : Cache → OidCacheKey → ℕ → Type 0
Settled cache k v = (cache k ≡ some v) × ((fixed_oid k ≡ none) ⊎ (fixed_oid k ≡ some v))

module _ (old : Cache) (k : OidCacheKey) (v : ℕ) (settled : Settled old k v) where
  resolve_settled : (counter : ℕ) → resolve_oid k old counter ≡ (v, counter)
  unfolding resolve_oid
  resolve_settled counter = elim settled.1 [
    | inl free ↦ rw free (rw settled.0)
    | inr fixed ↦ rw fixed
  ]

  insert-settled :
      (j : OidCacheKey) (new : Cache) (counter : ℕ)
      → (new k ≡ some v) ⊎ (j ≡ k)
      → insert j (resolve_oid j old counter).0 new k ≡ some v
  insert-settled j new counter h = elim (Bool-cases (key_eq j k)) [
    | inl same ↦
        rw same
          (rw ((key_eq_iff j k).0 same) (ap (λ (r : ℕ × ℕ). some r.0) (resolve_settled counter)))
    | inr other ↦ elim h [
      | inl kept ↦ rw other kept
      | inr same ↦ cc (other, (key_eq_iff j k).1 same)
    ]
  ]

  resolve_all-kept :
      (keys : List OidCacheKey) (new : Cache) (counter : ℕ)
      → new k ≡ some v
      → (resolve_all keys old new counter).0 k ≡ some v
  unfolding resolve_all
  resolve_all-kept [] new counter h = h
  resolve_all-kept (j ∷ keys) new counter h =
      let (oid, counter') = resolve_oid j old counter in
      resolve_all-kept keys (insert j oid new) counter' (insert-settled j new counter (inl h))

  pub resolve_all-settled :
      (keys : List OidCacheKey) (new : Cache) (counter : ℕ)
      → Memᴰ k keys
      → (resolve_all keys old new counter).0 k ≡ some v
  unfolding resolve_all
  resolve_all-settled (j ∷ keys) new counter (Memᴰ.head same) =
      let (oid, counter') = resolve_oid j old counter in
      resolve_all-kept keys (insert j oid new) counter'
        (insert-settled j new counter (inr (sym same)))
  resolve_all-settled (j ∷ keys) new counter (Memᴰ.tail listed) =
      let (oid, counter') = resolve_oid j old counter in
      resolve_all-settled keys (insert j oid new) counter' listed
  resolve_all-settled [] new counter listed = elim listed [ ]

  -- Whatever the new part of the cache is, for this key it holds the old OID or nothing.
  pub resolve_all-agrees :
      (keys : List OidCacheKey) (new : Cache) (counter : ℕ)
      → (new k ≡ none) ⊎ (new k ≡ some v)
      → ((resolve_all keys old new counter).0 k ≡ none)
        ⊎ ((resolve_all keys old new counter).0 k ≡ some v)
  unfolding resolve_all
  resolve_all-agrees [] new counter h = h
  resolve_all-agrees (j ∷ keys) new counter h =
      let (oid, counter') = resolve_oid j old counter in
      resolve_all-agrees keys (insert j oid new) counter' (elim (Bool-cases (key_eq j k)) [
        | inl same ↦ inr (insert-settled j new counter (inr ((key_eq_iff j k).0 same)))
        | inr other ↦ rw other h
      ])

-- The loops give every key they meet an OID.
insert-contains :
    (j : OidCacheKey) (oid : ℕ) (new : Cache) (k : OidCacheKey)
    → (contains_key new k ≡ true) ⊎ (j ≡ k)
    → contains_key (insert j oid new) k ≡ true
insert-contains j oid new k h = elim (Bool-cases (key_eq j k)) [
  | inl same ↦ rw (contains_key, same) refl
  | inr other ↦ elim h [
    | inl kept ↦ rw (contains_key, other) kept
    | inr same ↦ cc (other, (key_eq_iff j k).1 same)
  ]
]

pub resolve_all-contains :
    (keys : List OidCacheKey) (old new : Cache) (counter : ℕ) (k : OidCacheKey)
    → (contains_key new k ≡ true) ⊎ Memᴰ k keys
    → contains_key (resolve_all keys old new counter).0 k ≡ true
unfolding resolve_all
resolve_all-contains [] old new counter k (inl kept) = kept
resolve_all-contains [] old new counter k (inr listed) = elim listed [ ]
resolve_all-contains (j ∷ keys) old new counter k (inl kept) =
    let (oid, counter') = resolve_oid j old counter in
    resolve_all-contains keys old (insert j oid new) counter' k
      (inl (insert-contains j oid new k (inl kept)))
resolve_all-contains (j ∷ keys) old new counter k (inr (Memᴰ.head same)) =
    let (oid, counter') = resolve_oid j old counter in
    resolve_all-contains keys old (insert j oid new) counter' k
      (inl (insert-contains j oid new k (inr (sym same))))
resolve_all-contains (j ∷ keys) old new counter k (inr (Memᴰ.tail listed)) =
    let (oid, counter') = resolve_oid j old counter in
    resolve_all-contains keys old (insert j oid new) counter' k (inr listed)
