-- ===== src/Oid.antt =====
-- datafusion-pg-catalog/src/pg_catalog.rs: `OidCacheKey`, `fixed_oid` and `resolve_oid`, and the OID
-- bookkeeping of `get_data` in pg_catalog/pg_class.rs, pg_attribute.rs, pg_namespace.rs and
-- pg_database.rs. Each holds the write lock of the shared cache for its whole body. The listings of
-- catalogs, schemas and tables are a parameter, the cache is a function.
pub mod Resolving
pub mod Listing
pub mod Stability
mod Tests
use datafusion_postgres.Prelude.{
  ℕ, String, ◌+◌, ◌%◌, ◌^◌, Bool, true, false, not, ◌&&◌, Option, none, some, List, [], ◌∷◌, ◌++◌,
  map, str_eq, if◌then◌else◌,
}
use datafusion_postgres.Prelude.Lists.{any}

pub data OidCacheKey : Type 0 where
  catalog : String → OidCacheKey
  schema : String → String → OidCacheKey
  table : String → String → String → OidCacheKey

unfoldable pub key_eq : OidCacheKey → OidCacheKey → Bool
key_eq (catalog a) (catalog b) = str_eq a b
key_eq (schema a s) (schema b t) = str_eq a b && str_eq s t
key_eq (table a s x) (table b t y) = str_eq a b && (str_eq s t && str_eq x y)
key_eq _ _ = false

-- `HashMap<OidCacheKey, Oid>`
abbrev pub Cache : Type 0
Cache = OidCacheKey → Option ℕ

abbrev pub empty : Cache
empty key = none

abbrev pub insert : OidCacheKey → ℕ → Cache → Cache
insert key oid cache other = if key_eq key other then some oid else cache other

abbrev pub contains_key : Cache → OidCacheKey → Bool
contains_key cache key = elim (cache key) [ none ↦ false | some _ ↦ true ]

abbrev pub retain : (OidCacheKey → Bool) → Cache → Cache
retain keep cache key = if keep key then cache key else none

abbrev pub extend : Cache → Cache → Cache
extend cache more key = elim (more key) [ some oid ↦ some oid | none ↦ cache key ]

unfoldable pub fixed_oid : OidCacheKey → Option ℕ
fixed_oid (schema _ name) = if str_eq name "pg_catalog" then some 11 else none
fixed_oid _ = none

-- The shared state: the cache, and the counter, an `AtomicU32` that wraps around.
pub record Oids : Type 0 where
  pub cache : Cache
  pub counter : ℕ

abbrev pub or_next : Option ℕ → ℕ → ℕ × ℕ
or_next (some oid) counter = (oid, counter)
or_next none counter = (counter, (counter + 1) % 2 ^ 32)

abbrev pub or_cached : Option ℕ → Option ℕ → ℕ → ℕ × ℕ
or_cached (some oid) cached counter = (oid, counter)
or_cached none cached counter = or_next cached counter

-- The OID, and the counter afterwards.
unfoldable pub resolve_oid : OidCacheKey → Cache → ℕ → ℕ × ℕ
resolve_oid key cache counter = or_cached (fixed_oid key) (cache key) counter

-- The loops of `get_data`: each key is resolved in the old cache and put in the new one.
unfoldable pub resolve_all : List OidCacheKey → Cache → Cache → ℕ → Cache × ℕ
resolve_all [] old new counter = (new, counter)
resolve_all (key ∷ keys) old new counter =
    let (oid, counter') = resolve_oid key old counter in
    resolve_all keys old (insert key oid new) counter'

-- What `CatalogInfo` lists, while it does not fail.
pub record CatalogList : Type 0 where
  pub catalog_names : List String
  pub schema_names : String → Option (List String)
  pub table_names : String → String → Option (List String)

abbrev pub or_nothing : Option (List String) → List String
or_nothing none = []
or_nothing (some names) = names

abbrev pub flat_map : (String → List OidCacheKey) → List String → List OidCacheKey
flat_map f [] = []
flat_map f (x ∷ xs) = f x ++ flat_map f xs

abbrev pub keep_listed_tables : Cache → OidCacheKey → Bool
keep_listed_tables new (table c s t) = contains_key new (table c s t)
keep_listed_tables new _ = true

abbrev pub keep_in_schemas : Cache → OidCacheKey → Bool
keep_in_schemas new (catalog c) = true
keep_in_schemas new (schema c s) = false
keep_in_schemas new (table c s t) = contains_key new (schema c s)

abbrev pub keep_in_catalogs : Cache → OidCacheKey → Bool
keep_in_catalogs new (catalog c) = false
keep_in_catalogs new (schema c s) = contains_key new (catalog c)
keep_in_catalogs new (table c s t) = contains_key new (catalog c)

module _ (list : CatalogList) where
  unfoldable pub tables_of : String → String → List OidCacheKey
  tables_of c s = flat_map (λ t. table c s t ∷ []) (or_nothing (list.table_names c s))

  -- The keys in the order in which pg_class meets them.
  unfoldable pub class_keys : List OidCacheKey
  unfolding tables_of
  class_keys =
      flat_map
        (λ c.
          catalog c ∷ flat_map (λ s. schema c s ∷ tables_of c s) (or_nothing (list.schema_names c)))
        list.catalog_names

  unfoldable pub attribute_keys : List OidCacheKey
  unfolding tables_of
  attribute_keys =
      flat_map (λ c. flat_map (tables_of c) (or_nothing (list.schema_names c))) list.catalog_names

  unfoldable pub namespace_keys : List OidCacheKey
  namespace_keys =
      flat_map (λ c. flat_map (λ s. schema c s ∷ []) (or_nothing (list.schema_names c)))
        list.catalog_names

  -- "postgres" is always listed as a database.
  unfoldable pub database_keys : List OidCacheKey
  unfolding any
  database_keys =
      flat_map (λ c. catalog c ∷ []) list.catalog_names
      ++ (if any (λ c. str_eq c "postgres") list.catalog_names then [] else catalog "postgres" ∷ [])

  -- pg_class replaces the cache.
  unfoldable pub pg_class : Oids → Oids
  unfolding resolve_all
  pg_class o =
      let (new, counter') = resolve_all class_keys o.cache empty o.counter in
      record { cache = new; counter = counter' }

  unfoldable pub pg_attribute : Oids → Oids
  unfolding resolve_all
  pg_attribute o =
      let (new, counter') = resolve_all attribute_keys o.cache empty o.counter in
      record { cache = extend (retain (keep_listed_tables new) o.cache) new; counter = counter' }

  unfoldable pub pg_namespace : Oids → Oids
  unfolding resolve_all
  pg_namespace o =
      let (new, counter') = resolve_all namespace_keys o.cache empty o.counter in
      record { cache = extend (retain (keep_in_schemas new) o.cache) new; counter = counter' }

  unfoldable pub pg_database : Oids → Oids
  unfolding resolve_all
  pg_database o =
      let (new, counter') = resolve_all database_keys o.cache empty o.counter in
      record { cache = extend (retain (keep_in_catalogs new) o.cache) new; counter = counter' }
