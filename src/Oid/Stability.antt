-- ===== src/Oid/Stability.antt =====
-- The OIDs of listed objects, before and after a query of a catalog table.
use mathlib.Core.List.{Memᴰ}
use datafusion_postgres.Prelude.{ℕ, String, Bool, true, none, some, ◌≡◌, ◌⊎◌, refl, inl, inr}
use datafusion_postgres.Oid.{
  OidCacheKey, catalog, schema, table, Cache, empty, contains_key, retain, extend, Oids,
  resolve_all, CatalogList, class_keys, attribute_keys, namespace_keys, database_keys, pg_class,
  pg_attribute, pg_namespace, pg_database, keep_listed_tables, keep_in_schemas, keep_in_catalogs,
}
use datafusion_postgres.Oid.Resolving.{
  Settled, resolve_all-settled, resolve_all-agrees, resolve_all-contains,
}
use datafusion_postgres.Oid.Listing.{
  IsListed, class_keys-listed, attribute_keys-listed, namespace_keys-listed, database_keys-listed,
}

extend-retain :
    (keep : OidCacheKey → Bool) (old new : Cache) (k : OidCacheKey) (v : ℕ)
    → old k ≡ some v
    → (keep k ≡ true) ⊎ (new k ≡ some v)
    → (new k ≡ none) ⊎ (new k ≡ some v)
    → extend (retain keep old) new k ≡ some v
extend-retain keep old new k v cached (inl kept) (inl absent) = rw (extend, absent) (rw kept cached)
extend-retain keep old new k v cached (inr settled) (inl absent) = rw (extend, settled) refl
extend-retain keep old new k v cached h (inr settled) = rw (extend, settled) refl

-- The OID of `k` in the cache is `v`.
abbrev pub Holds : Oids → OidCacheKey → ℕ → Type 0
Holds o k v = o.cache k ≡ some v

module _ (list : CatalogList) (o : Oids) (v : ℕ) where
  attribute-stable :
      (k : OidCacheKey) → IsListed list k → Settled o.cache k v → Holds (pg_attribute list o) k v
  unfolding pg_attribute
  attribute-stable k listed settled =
      let new = (resolve_all (attribute_keys list) o.cache empty o.counter).0 in
      extend-retain (keep_listed_tables new) o.cache new k v settled.0 (kept k listed settled)
        (resolve_all-agrees o.cache k v settled (attribute_keys list) empty o.counter (inl refl))
    where
      kept :
          (k : OidCacheKey)
          → IsListed list k
          → Settled o.cache k v
          → (keep_listed_tables (resolve_all (attribute_keys list) o.cache empty o.counter).0 k
              ≡ true)
            ⊎ ((resolve_all (attribute_keys list) o.cache empty o.counter).0 k ≡ some v)
      kept (table c s t) listed settled = inr (
          resolve_all-settled o.cache (table c s t) v settled (attribute_keys list) empty o.counter
            (attribute_keys-listed list c s t listed))
      kept (schema c s) listed settled = inl refl
      kept (catalog c) listed settled = inl refl

  namespace-stable :
      (k : OidCacheKey) → IsListed list k → Settled o.cache k v → Holds (pg_namespace list o) k v
  unfolding pg_namespace
  namespace-stable k listed settled =
      let new = (resolve_all (namespace_keys list) o.cache empty o.counter).0 in
      extend-retain (keep_in_schemas new) o.cache new k v settled.0 (kept k listed settled)
        (resolve_all-agrees o.cache k v settled (namespace_keys list) empty o.counter (inl refl))
    where
      kept :
          (k : OidCacheKey)
          → IsListed list k
          → Settled o.cache k v
          → (keep_in_schemas (resolve_all (namespace_keys list) o.cache empty o.counter).0 k ≡ true)
            ⊎ ((resolve_all (namespace_keys list) o.cache empty o.counter).0 k ≡ some v)
      kept (table c s t) listed settled = inl (
          resolve_all-contains (namespace_keys list) o.cache empty o.counter (schema c s)
            (inr (namespace_keys-listed list c s listed.0 listed.1)))
      kept (schema c s) listed settled = inr (
          resolve_all-settled o.cache (schema c s) v settled (namespace_keys list) empty o.counter
            (namespace_keys-listed list c s listed.0 listed.1))
      kept (catalog c) listed settled = inl refl

  database-stable :
      (k : OidCacheKey) → IsListed list k → Settled o.cache k v → Holds (pg_database list o) k v
  unfolding pg_database
  database-stable k listed settled =
      let new = (resolve_all (database_keys list) o.cache empty o.counter).0 in
      extend-retain (keep_in_catalogs new) o.cache new k v settled.0 (kept k listed settled)
        (resolve_all-agrees o.cache k v settled (database_keys list) empty o.counter (inl refl))
    where
      contains :
          (c : String)
          → Memᴰ c list.catalog_names
          → contains_key (resolve_all (database_keys list) o.cache empty o.counter).0 (catalog c)
            ≡ true
      contains c listed =
          resolve_all-contains (database_keys list) o.cache empty o.counter (catalog c)
            (inr (database_keys-listed list c listed))

      kept :
          (k : OidCacheKey)
          → IsListed list k
          → Settled o.cache k v
          → (keep_in_catalogs (resolve_all (database_keys list) o.cache empty o.counter).0 k ≡ true)
            ⊎ ((resolve_all (database_keys list) o.cache empty o.counter).0 k ≡ some v)
      kept (table c s t) listed settled = inl (contains c listed.0)
      kept (schema c s) listed settled = inl (contains c listed.0)
      kept (catalog c) listed settled = inr (
          resolve_all-settled o.cache (catalog c) v settled (database_keys list) empty o.counter
            (database_keys-listed list c listed))

  -- While a catalog, a schema or a table is listed, and its OID `v` in the cache is the fixed one
  -- if it has a fixed one, each of pg_class, pg_attribute, pg_namespace and pg_database leaves `v` as
  -- its OID in the cache.
  pub listed-keeps_oid :
      (k : OidCacheKey)
      → IsListed list k
      → Settled o.cache k v
      → Holds (pg_class list o) k v
        × Holds (pg_attribute list o) k v
        × Holds (pg_namespace list o) k v
        × Holds (pg_database list o) k v
  unfolding pg_class
  listed-keeps_oid k listed settled = (
    resolve_all-settled o.cache k v settled (class_keys list) empty o.counter
        (class_keys-listed list k listed),
    attribute-stable k listed settled,
    namespace-stable k listed settled,
    database-stable k listed settled,
  )
