-- ===== src/RateLimit/Overrides.antt =====
-- Looking up in a catalog after an insertion or a merge.
use world_infra.Prelude.{
  ◌≡◌, refl, Option, none, some, List, [], ◌∷◌, ok, Result-cases, inl, inr, if◌then◌else◌, arith,
}
use world_infra.Text.{Text, text_eq}
use world_infra.Text.Laws.{text_eq_iff}
use world_infra.Map.{insert, get, Distinct, text_key}
use world_infra.Map.Laws.{get-insert}
use world_infra.RateLimit.{LimitSpec, validate_key_part}
use world_infra.RateLimit.Catalog.{LimitCatalog, insert_limit, get_limit, extend, merge}

-- The limit that stands in front of another.
abbrev pub or_else : Option LimitSpec → Option LimitSpec → Option LimitSpec
or_else none o = o
or_else (some spec) o = some spec

get-extend :
    (label : Text) (limits others : List (Text × LimitSpec))
    → Distinct others
    → get label (extend limits others) ≡ or_else (get label others) (get label limits)
unfolding extend get
get-extend label limits [] d = refl
get-extend label limits ((l, spec) ∷ others) d = ground (
  arith,
  get-extend label (insert l spec limits) others d.1,
  get-insert label l spec limits,
  text_eq_iff l label,
)

-- In a merged catalog a label has its limit in the second catalog, whose keys are distinct, if it
-- has one there, and else its limit in the first.
pub get_limit-merge :
    (c other : LimitCatalog) (label : Text)
    → Distinct other.limits
    → get_limit (merge c other) label ≡ or_else (get_limit other label) (get_limit c label)
unfolding get_limit merge
get_limit-merge c other label d = elim (Result-cases (validate_key_part label)) [
  | inl (part, e) ↦ ground (arith, e, get-extend part c.limits other.limits d)
  | inr (error, e) ↦ ground (arith, e)
]

-- An accepted insertion is found again under every label that validates to the same text, it
-- changes no other valid label, and it answers with the limit replaced.
pub get_limit-insert_limit :
    (c c' : LimitCatalog) (label part other part' : Text) (spec : LimitSpec)
    (old : Option LimitSpec)
    → insert_limit c label spec ≡ ok (c', old)
    → validate_key_part label ≡ ok part
    → validate_key_part other ≡ ok part'
    → (old ≡ get_limit c label)
      × (get_limit c' other ≡ (if text_eq part part' then some spec else get_limit c other))
unfolding insert_limit get_limit
get_limit-insert_limit c c' label part other part' spec old h e e' =
    ground (arith, get-insert part' part spec c.limits)
