-- ===== src/AuthPrimitives/Bearer.antt =====
-- crates/auth-primitives/src/lib.rs: bearer credentials of an `Authorization` header.
use world_infra.Prelude.{
  ℕ, ◌≡◌, refl, Bool, true, false, not, ◌||◌, Option, none, some, [], ◌∷◌, ◌++◌, any, all, ◌==◌,
  arith, if◌then◌else◌, Result, ok, err, fail_if, ◌>>◌, guard-ok, subst, sym,
}
use world_infra.Text.{
  Text, codes, text_eq, is_control, is_whitespace, is_ascii_alphanumeric, trim, is_empty,
}
use world_infra.Text.Laws.{trim_of_ends, trim_of_plain}
use world_infra.Text.Scan.{to_ascii_lowercase}
use world_infra.AuthPrimitives.{AuthPrimitiveError, empty, invalid}

pub record BearerCredential : Type 0 where
  pub token : Text

-- The characters of a bearer token; those past ASCII have bytes of 128 or more, which are refused.
unfoldable pub is_bearer_token_byte : ℕ → Bool
is_bearer_token_byte byte =
    is_ascii_alphanumeric byte
    || byte == b'-'
    || byte == b'.'
    || byte == b'_'
    || byte == b'~'
    || byte == b'+'
    || byte == b'/'
    || byte == b'='

-- `str::splitn(2, …)` at a class of characters: what stands in front of the first, and behind it.
unfoldable pub split_two : (ℕ → Bool) → Text → Text × Text
split_two separator [] = ([], [])
split_two separator (c ∷ s) =
    if separator c then ([], s) else (c ∷ (split_two separator s).0, (split_two separator s).1)

-- The checks of the two parts of a header.
unfoldable pub bearer_of : Text → Text → Result AuthPrimitiveError BearerCredential
bearer_of scheme token = do
  fail_if (not (text_eq (to_ascii_lowercase scheme) (codes "bearer")) || is_empty token)
      (invalid (codes "authorization"))
  fail_if
      (any (λ ch. is_control ch || is_whitespace ch) token || not (all is_bearer_token_byte token))
      (invalid (codes "authorization"))
  ok (record { token = token })

unfoldable pub parse_bearer_authorization : Option Text → Result AuthPrimitiveError BearerCredential
parse_bearer_authorization none = err (empty (codes "authorization"))
parse_bearer_authorization (some header) = do
  fail_if (any is_control header) (invalid (codes "authorization"))
  let header = trim header
  fail_if (is_empty header) (empty (codes "authorization"))
  bearer_of (split_two is_whitespace header).0 (trim ((split_two is_whitespace header).1))

pub IsBearer : Text → Type 0
IsBearer token =
    (is_empty token ≡ false)
    × (any (λ ch. is_control ch || is_whitespace ch) token ≡ false)
    × (all is_bearer_token_byte token ≡ true)

bearer_of-IsBearer :
    (scheme token : Text) (credential : BearerCredential)
    → bearer_of scheme token ≡ ok credential
    → (credential ≡ record { token = token }) × IsBearer credential.token
unfolding bearer_of IsBearer
bearer_of-IsBearer scheme token credential h =
    let (named, rest) =
      guard-ok (not (text_eq (to_ascii_lowercase scheme) (codes "bearer")) || is_empty token)
        (invalid (codes "authorization")) _ credential h in
    let (plain, last) =
      guard-ok
        (any (λ ch. is_control ch || is_whitespace ch) token
          || not (all is_bearer_token_byte token))
        (invalid (codes "authorization")) (ok (record { token = token })) credential rest in
    let same : credential ≡ record { token = token } = cc in
    (
      same,
      subst (λ c. IsBearer c.token) (sym same)
          (ground (arith, named), ground (arith, plain), ground (arith, plain)),
    )

-- What the parser accepts: a token of the characters of bearer tokens, at least one, no white space.
pub parse_bearer_authorization-IsBearer :
    (header : Option Text) (credential : BearerCredential)
    → parse_bearer_authorization header ≡ ok credential
    → IsBearer credential.token
unfolding parse_bearer_authorization
parse_bearer_authorization-IsBearer none credential h = absurd cc
parse_bearer_authorization-IsBearer (some header) credential h =
    let (_, rest) =
      guard-ok (any is_control header) (invalid (codes "authorization")) _ credential h in
    let (_, last) =
      guard-ok (is_empty (trim header)) (empty (codes "authorization"))
        (bearer_of (split_two is_whitespace (trim header)).0
          (trim ((split_two is_whitespace (trim header)).1)))
        credential rest in
    (bearer_of-IsBearer _ _ credential last).1

any-left :
    (p q : ℕ → Bool) (s : Text)
    → any (λ c. p c || q c) s ≡ false
    → (any p s ≡ false) × (any q s ≡ false)
any-left p q [] h = (refl, refl)
any-left p q (c ∷ s) h = ground (arith, any-left p q s)

-- A token of bearer characters behind `Bearer ` is parsed as itself.
pub parse_bearer_authorization-Bearer :
    (credential : BearerCredential)
    → IsBearer credential.token
    → parse_bearer_authorization (some (codes "Bearer " ++ credential.token)) ≡ ok credential
unfolding parse_bearer_authorization bearer_of IsBearer split_two is_whitespace is_control
parse_bearer_authorization-Bearer credential h =
    let (solid, plain, bytes) = h in
    let (tame, dark) = any-left is_control is_whitespace credential.token plain in
    let last : bearer_of (codes "Bearer") (trim credential.token) ≡ ok credential =
      rw (trim_of_plain credential.token dark, solid, plain, bytes) refl in
    rw (trim_of_ends b'B' (codes "earer ") credential.token refl dark solid, tame) last

-- Whatever header a token is parsed from, the token behind `Bearer ` is parsed as itself.
pub parse_bearer_authorization-normal :
    (header : Option Text) (credential : BearerCredential)
    → parse_bearer_authorization header ≡ ok credential
    → parse_bearer_authorization (some (codes "Bearer " ++ credential.token)) ≡ ok credential
parse_bearer_authorization-normal header credential h =
    parse_bearer_authorization-Bearer credential
      (parse_bearer_authorization-IsBearer header credential h)
