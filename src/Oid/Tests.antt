-- ===== src/Oid/Tests.antt =====
-- A catalog with one table, and an empty one.
use mathlib.Core.List.{Memᴰ}
use datafusion_postgres.Prelude.{none, some, [], ◌∷◌, refl, inl}
use datafusion_postgres.Oid.{
  catalog, table, key_eq, empty, insert, fixed_oid, Oids, CatalogList, resolve_oid, class_keys,
  database_keys, pg_class, pg_attribute, pg_namespace, pg_database,
}
use datafusion_postgres.Oid.Resolving.{Settled}
use datafusion_postgres.Oid.Stability.{Holds, listed-keeps_oid}

abbrev one_table : CatalogList
one_table = record {
  catalog_names = "datafusion" ∷ [];
  schema_names = λ c. some ("public" ∷ []);
  table_names = λ c s. some ("t" ∷ []);
}

-- The table has an OID, and so has another that is gone.
abbrev known : Oids
known = record {
  cache =
      insert (table "datafusion" "public" "t") 16386
        (insert (table "datafusion" "public" "gone") 16387 empty);
  counter = 16388;
}

t-Settled : Settled known.cache (table "datafusion" "public" "t") 16386
unfolding key_eq fixed_oid
t-Settled = (refl, inl refl)

listed-keeps_oid_example :
    Holds (pg_class one_table known) (table "datafusion" "public" "t") 16386
    × Holds (pg_attribute one_table known) (table "datafusion" "public" "t") 16386
    × Holds (pg_namespace one_table known) (table "datafusion" "public" "t") 16386
    × Holds (pg_database one_table known) (table "datafusion" "public" "t") 16386
listed-keeps_oid_example =
    listed-keeps_oid one_table known 16386 (table "datafusion" "public" "t")
      (Memᴰ.head refl, Memᴰ.head refl, Memᴰ.head refl) t-Settled

-- "postgres" is no listed catalog here, but pg_database gives it an OID: a query of pg_class drops
-- it from the cache, and the next query of pg_database gives it another one.
abbrev no_catalogs : CatalogList
no_catalogs = record { catalog_names = []; schema_names = λ c. none; table_names = λ c s. none }

abbrev started : Oids
started = record { cache = empty; counter = 16384 }

postgres_oid_changes :
    Holds (pg_database no_catalogs started) (catalog "postgres") 16384
    × Holds
        (pg_database no_catalogs (pg_class no_catalogs (pg_database no_catalogs started)))
        (catalog "postgres")
        16385
unfolding pg_database database_keys key_eq resolve_oid fixed_oid pg_class class_keys
postgres_oid_changes = (refl, refl)
