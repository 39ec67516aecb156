-- ===== src/RateLimit/Catalog.antt =====
-- crates/rate-limit-core/src/lib.rs: the catalog of limits by label.
use world_infra.Prelude.{Option, none, List, [], ◌∷◌, Result, ok, err, ◌>>=◌}
use world_infra.Text.{Text}
use world_infra.Map.{insert, get, text_key}
use world_infra.RateLimit.{LimitSpec, RateLimitError, validate_key_part}

pub record LimitCatalog : Type 0 where
  pub limits : List (Text × LimitSpec)

unfoldable pub new_catalog : LimitCatalog
new_catalog = record { limits = [] }

-- `LimitCatalog::insert`, which also answers with the limit that it replaces.
unfoldable pub insert_limit :
    LimitCatalog → Text → LimitSpec → Result RateLimitError (LimitCatalog × Option LimitSpec)
insert_limit c label spec = do
  label ← validate_key_part label
  ok (record { limits = insert label spec c.limits }, get label c.limits)

unfoldable pub get_limit : LimitCatalog → Text → Option LimitSpec
get_limit c label = elim (validate_key_part label) [ ok label ↦ get label c.limits | err e ↦ none ]

insert_pairs : LimitCatalog → List (Text × LimitSpec) → Result RateLimitError LimitCatalog
insert_pairs c [] = ok c
insert_pairs c ((label, spec) ∷ pairs) = elim (insert_limit c label spec) [
  | ok r ↦ insert_pairs r.0 pairs
  | err e ↦ err e
]

-- `LimitCatalog::from_pairs`
unfoldable pub from_pairs : List (Text × LimitSpec) → Result RateLimitError LimitCatalog
unfolding insert_pairs
from_pairs pairs = insert_pairs new_catalog pairs

-- `HashMap::extend`
unfoldable pub extend : List (Text × LimitSpec) → List (Text × LimitSpec) → List (Text × LimitSpec)
extend limits [] = limits
extend limits ((label, spec) ∷ others) = extend (insert label spec limits) others

unfoldable pub merge : LimitCatalog → LimitCatalog → LimitCatalog
merge c other = record { limits = extend c.limits other.limits }
