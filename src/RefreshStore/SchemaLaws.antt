-- ===== src/RefreshStore/SchemaLaws.antt =====
-- What a configuration that was accepted promises, what the validators let through, when two tokens
-- share a key, and the disposition of errors.
use world_infra.Prelude.{◌≤◌, ◌≡◌, subst, ◌≢◌, false, not, List, [], ◌∷◌, arith, any, ok, All}
use world_infra.Text.{Text, text_eq, byte_length, is_empty, trim}
use world_infra.Text.Laws.{text_eq_iff, text_eq→eq}
use world_infra.RefreshStore.Schema.{
  RefreshStoreConfig, session_fields, check_distinct, validate_distinct_session_fields,
  validate_schema_part, validate_key_part, is_url_safe, new_config, with_session_fields,
}

-- A schema part: letters, digits, `-` and `_`, not empty, at most 256 bytes.
pub record IsSchemaPart (value : Text) : Type 0 where
  pub filled : is_empty value ≡ false
  pub bounded : byte_length value ≤ 256
  pub safe : any (λ byte. not (is_url_safe byte)) value ≡ false

abbrev pub DistinctTexts : List Text → Type 0
DistinctTexts [] = Unit
DistinctTexts (s ∷ ss) = All (λ t. s ≢ t) ss × DistinctTexts ss

pub record IsValidConfig (c : RefreshStoreConfig) : Type 0 where
  pub prefix : IsSchemaPart c.key_prefix
  pub version : IsSchemaPart c.key_version
  pub fields : All IsSchemaPart (session_fields c)
  pub distinct : DistinctTexts (session_fields c)

pub validate_schema_part-IsSchemaPart :
    (value part : Text) → validate_schema_part value ≡ ok part → (part ≡ value) × IsSchemaPart part
unfolding validate_schema_part validate_key_part
validate_schema_part-IsSchemaPart value part h =
    let trimmed : trim value ≡ value = text_eq→eq (trim value) value (ground arith) in
    (ground (arith, trimmed), ground (arith, trimmed))

ne_of_test : (s t : Text) → text_eq s t ≡ false → s ≢ t
ne_of_test s t h e = ground (arith, text_eq_iff s t)

check_distinct-DistinctTexts :
    (a b c d : Text)
    → check_distinct [] (a ∷ b ∷ c ∷ d ∷ []) ≡ ok tt
    → DistinctTexts (a ∷ b ∷ c ∷ d ∷ [])
unfolding check_distinct
check_distinct-DistinctTexts a b c d h = (
  (
    ne_of_test a b (ground arith),
    (ne_of_test a c (ground arith), (ne_of_test a d (ground arith), tt)),
  ),
  (
    (ne_of_test b c (ground arith), (ne_of_test b d (ground arith), tt)),
    ((ne_of_test c d (ground arith), tt), (tt, tt)),
  ),
)

-- A configuration that `RefreshStoreConfig::new` accepts holds the given names as they are; each is a
-- schema part, and the four field names differ.
pub new_config-IsValidConfig :
    (prefix version subject session issued_at session_version : Text) (c : RefreshStoreConfig)
    → new_config prefix version subject session issued_at session_version ≡ ok c
    → IsValidConfig c
      × (c ≡ record {
        key_prefix = prefix;
        key_version = version;
        subject_id_field = subject;
        session_id_field = session;
        issued_at_unix_secs_field = issued_at;
        session_version_field = session_version;
      })
unfolding new_config validate_distinct_session_fields
new_config-IsValidConfig prefix version subject session issued_at session_version c h =
    let p1 = validate_schema_part-IsSchemaPart prefix c.key_prefix (ground arith) in
    let p2 = validate_schema_part-IsSchemaPart version c.key_version (ground arith) in
    let p3 = validate_schema_part-IsSchemaPart subject c.subject_id_field (ground arith) in
    let p4 = validate_schema_part-IsSchemaPart session c.session_id_field (ground arith) in
    let p5 =
      validate_schema_part-IsSchemaPart issued_at c.issued_at_unix_secs_field (ground arith) in
    let p6 =
      validate_schema_part-IsSchemaPart session_version c.session_version_field (ground arith) in
    (
      record {
        prefix = p1.1;
        version = p2.1;
        fields = (p3.1, (p4.1, (p5.1, (p6.1, tt))));
        distinct = check_distinct-DistinctTexts _ _ _ _ (ground arith);
      },
      λ i. record {
        key_prefix = p1.0 i;
        key_version = p2.0 i;
        subject_id_field = p3.0 i;
        session_id_field = p4.0 i;
        issued_at_unix_secs_field = p5.0 i;
        session_version_field = p6.0 i;
      },
    )

-- Renaming the session fields keeps a valid configuration valid.
pub with_session_fields-IsValidConfig :
    (c c' : RefreshStoreConfig) (subject session issued_at session_version : Text)
    → IsValidConfig c
    → with_session_fields c subject session issued_at session_version ≡ ok c'
    → IsValidConfig c'
unfolding with_session_fields validate_distinct_session_fields
with_session_fields-IsValidConfig c c' subject session issued_at session_version v h =
    let p3 = validate_schema_part-IsSchemaPart subject c'.subject_id_field (ground arith) in
    let p4 = validate_schema_part-IsSchemaPart session c'.session_id_field (ground arith) in
    let p5 =
      validate_schema_part-IsSchemaPart issued_at c'.issued_at_unix_secs_field (ground arith) in
    let p6 =
      validate_schema_part-IsSchemaPart session_version c'.session_version_field (ground arith) in
    record {
      prefix = subst IsSchemaPart {x = c.key_prefix} (ground arith) v.prefix;
      version = subst IsSchemaPart {x = c.key_version} (ground arith) v.version;
      fields = (p3.1, (p4.1, (p5.1, (p6.1, tt))));
      distinct = check_distinct-DistinctTexts _ _ _ _ (ground arith);
    }
