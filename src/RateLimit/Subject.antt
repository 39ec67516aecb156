-- ===== src/RateLimit/Subject.antt =====
-- crates/rate-limit-core/src/lib.rs: `subject_key`, and when two subjects share a key. `sha256_hex` is
-- the digest of the `sha2` crate on the bytes of a text, written in hexadecimal.
use world_infra.Prelude.{
  Bool, true, false, Option, none, some, ◌∷◌, ◌++◌, Result, ok, err, ◌>>=◌, ◌>>◌, fail_if,
}
use world_infra.Text.{Text, codes, byte_length, trim, is_empty}
use world_infra.Text.Decimal.{decimal}
use world_infra.RateLimit.{RateLimitError, invalid_key, validate_key_part, new_key}

-- The kind of a subject's text: the subject itself, or its digest.
abbrev pub kind_of : Bool → Text
kind_of true = codes "raw"
kind_of false = codes "sha256"

unfoldable pub length_prefixed_subject_key : Text → Text → Bool → Text → Text
length_prefixed_subject_key prefix label raw subject =
    codes "subject:v2:p"
    ++ (decimal (byte_length prefix)
        ++ b':'
          ∷ (prefix
              ++ (codes ":l"
                  ++ (decimal (byte_length label)
                      ++ b':'
                        ∷ (label
                            ++ b':'
                              ∷ (kind_of raw
                                  ++ (codes ":s"
                                      ++ (decimal (byte_length subject) ++ b':' ∷ subject))))))))

-- The key with the subject itself, if the subject and the key are valid.
unfoldable pub raw_key : Text → Text → Text → Option Text
raw_key prefix label subject = elim (validate_key_part subject) [
  | err e ↦ none
  | ok s ↦ elim (new_key (length_prefixed_subject_key prefix label true subject)) [
    | ok key ↦ some key
    | err e ↦ none
  ]
]

module _ (sha256_hex : Text → Text) where
  -- The part of `subject_key` after the validation of prefix and label.
  unfoldable pub key_of_parts : Text → Text → Text → Result RateLimitError Text
  key_of_parts prefix label subject = do
    fail_if (is_empty subject) invalid_key
    elim (raw_key prefix label subject) [
      | some key ↦ ok key
      | none ↦ new_key (length_prefixed_subject_key prefix label false (sha256_hex subject))
    ]

  unfoldable pub subject_key : Text → Text → Text → Result RateLimitError Text
  subject_key prefix label subject = do
    prefix ← validate_key_part prefix
    label ← validate_key_part label
    key_of_parts prefix label (trim subject)
