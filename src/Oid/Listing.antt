-- ===== src/Oid/Listing.antt =====
-- Which objects the four tables meet.
use mathlib.Core.List.{Memᴰ}
use datafusion_postgres.Prelude.{String, List, [], ◌∷◌, ◌++◌, refl, str_eq, if◌then◌else◌}
use datafusion_postgres.Prelude.Lists.{any}
use datafusion_postgres.Oid.{
  OidCacheKey, catalog, schema, table, CatalogList, or_nothing, flat_map, tables_of, class_keys,
  attribute_keys, namespace_keys, database_keys,
}

Memᴰ-left : {k : OidCacheKey} (xs ys : List OidCacheKey) → Memᴰ k xs → Memᴰ k (xs ++ ys)
Memᴰ-left (x ∷ xs) ys (Memᴰ.head e) = Memᴰ.head e
Memᴰ-left (x ∷ xs) ys (Memᴰ.tail m) = Memᴰ.tail (Memᴰ-left xs ys m)
Memᴰ-left [] ys m = elim m [ ]

Memᴰ-right : {k : OidCacheKey} (xs ys : List OidCacheKey) → Memᴰ k ys → Memᴰ k (xs ++ ys)
Memᴰ-right [] ys m = m
Memᴰ-right (x ∷ xs) ys m = Memᴰ.tail (Memᴰ-right xs ys m)

Memᴰ-flat_map :
    {k : OidCacheKey} (f : String → List OidCacheKey) (names : List String) {n : String}
    → Memᴰ n names
    → Memᴰ k (f n)
    → Memᴰ k (flat_map f names)
Memᴰ-flat_map {k} f (x ∷ names) {n} (Memᴰ.head same) m =
    Memᴰ-left (f x) (flat_map f names) (rw same at m)
Memᴰ-flat_map f (x ∷ names) (Memᴰ.tail listed) m =
    Memᴰ-right (f x) (flat_map f names) (Memᴰ-flat_map f names listed m)
Memᴰ-flat_map f [] listed m = elim listed [ ]

-- The objects that the catalog lists.
abbrev pub IsListed : CatalogList → OidCacheKey → Type 0
IsListed list (catalog c) = Memᴰ c list.catalog_names
IsListed list (schema c s) = Memᴰ c list.catalog_names × Memᴰ s (or_nothing (list.schema_names c))
IsListed list (table c s t) =
    Memᴰ c list.catalog_names
    × Memᴰ s (or_nothing (list.schema_names c))
    × Memᴰ t (or_nothing (list.table_names c s))

tables_of-listed :
    (list : CatalogList) (c s t : String)
    → Memᴰ t (or_nothing (list.table_names c s))
    → Memᴰ (table c s t) (tables_of list c s)
unfolding tables_of
tables_of-listed list c s t listed =
    Memᴰ-flat_map (λ t. table c s t ∷ []) (or_nothing (list.table_names c s)) listed
      (Memᴰ.head refl)

pub class_keys-listed :
    (list : CatalogList) (k : OidCacheKey) → IsListed list k → Memᴰ k (class_keys list)
unfolding class_keys
class_keys-listed list (catalog c) listed =
    Memᴰ-flat_map
      (λ c.
        catalog c
        ∷ flat_map (λ s. schema c s ∷ tables_of list c s) (or_nothing (list.schema_names c)))
      list.catalog_names listed (Memᴰ.head refl)
class_keys-listed list (schema c s) listed =
    Memᴰ-flat_map
      (λ c.
        catalog c
        ∷ flat_map (λ s. schema c s ∷ tables_of list c s) (or_nothing (list.schema_names c)))
      list.catalog_names listed.0
      (Memᴰ.tail (
        Memᴰ-flat_map (λ s. schema c s ∷ tables_of list c s) (or_nothing (list.schema_names c))
          listed.1 (Memᴰ.head refl)))
class_keys-listed list (table c s t) listed =
    Memᴰ-flat_map
      (λ c.
        catalog c
        ∷ flat_map (λ s. schema c s ∷ tables_of list c s) (or_nothing (list.schema_names c)))
      list.catalog_names listed.0
      (Memᴰ.tail (
        Memᴰ-flat_map (λ s. schema c s ∷ tables_of list c s) (or_nothing (list.schema_names c))
          listed.1 (Memᴰ.tail (tables_of-listed list c s t listed.2))))

pub attribute_keys-listed :
    (list : CatalogList) (c s t : String)
    → IsListed list (table c s t)
    → Memᴰ (table c s t) (attribute_keys list)
unfolding attribute_keys
attribute_keys-listed list c s t listed =
    Memᴰ-flat_map (λ c. flat_map (tables_of list c) (or_nothing (list.schema_names c)))
      list.catalog_names listed.0
      (Memᴰ-flat_map (tables_of list c) (or_nothing (list.schema_names c)) listed.1
        (tables_of-listed list c s t listed.2))

pub namespace_keys-listed :
    (list : CatalogList) (c s : String)
    → Memᴰ c list.catalog_names
    → Memᴰ s (or_nothing (list.schema_names c))
    → Memᴰ (schema c s) (namespace_keys list)
unfolding namespace_keys
namespace_keys-listed list c s listed named =
    Memᴰ-flat_map (λ c. flat_map (λ s. schema c s ∷ []) (or_nothing (list.schema_names c)))
      list.catalog_names listed
      (Memᴰ-flat_map (λ s. schema c s ∷ []) (or_nothing (list.schema_names c)) named
        (Memᴰ.head refl))

pub database_keys-listed :
    (list : CatalogList) (c : String)
    → Memᴰ c list.catalog_names
    → Memᴰ (catalog c) (database_keys list)
unfolding database_keys
database_keys-listed list c listed =
    Memᴰ-left (flat_map (λ c. catalog c ∷ []) list.catalog_names)
      (if any (λ c. str_eq c "postgres") list.catalog_names then [] else catalog "postgres" ∷ [])
      (Memᴰ-flat_map (λ c. catalog c ∷ []) list.catalog_names listed (Memᴰ.head refl))
