-- ===== src/AuthHttp/OriginLaws.antt =====
-- The origins that a policy of crates/auth-http-core/src/lib.rs trusts.
use world_infra.Prelude.{
  ℕ, ◌≡◌, refl, ap, subst, ◌∙◌, Bool, true, false, not, ◌||◌, Option, some, List, [], ◌∷◌, ◌++◌,
  any, all, ◌==◌, Bool-cases, Result, ok, err, bind-ok, guard-ok, ok_injective, ok_or, arith, inl,
  inr,
}
use world_infra.Text.{Text, codes, text_eq, trim, is_empty}
use world_infra.Text.Laws.{text_eq_iff, text_eq_refl}
use world_infra.Text.Scan.{to_ascii_lowercase, ascii_lower, split_scheme}
use world_infra.AuthHttp.{AuthHttpError, untrusted_origin, is_ascii_whitespace}
use world_infra.AuthHttp.Origins.{
  IpAddr, TrustedOriginPolicy, is_ok_and, validate_authority, normalize_origin, normalize_origins,
  new_trusted_origin_policy, is_trusted,
}

-- Not the start of a path, a query, a fragment or behind user information, and not white space.
abbrev pub is_authority_char : ℕ → Bool
is_authority_char c = not (
    (c == b'/' || (c == b'?' || (c == b'#' || c == b'\\'))) || (c == b'@' || is_ascii_whitespace c))

-- A scheme of the web and an authority in lower case with nothing behind it.
abbrev pub IsOrigin : Text → Type 0
IsOrigin origin =
    (scheme : Text) × (rest : Text) × (origin ≡ scheme ++ (codes "://" ++ to_ascii_lowercase rest))
    × ((text_eq scheme (codes "http") || text_eq scheme (codes "https")) ≡ true)
    × (is_empty rest ≡ false)
    × (all is_authority_char (to_ascii_lowercase rest) ≡ true)

lower-IsAuthorityChar :
    (c : ℕ) → is_authority_char c ≡ true → is_authority_char (ascii_lower c) ≡ true
lower-IsAuthorityChar c h = ground arith

lowercase-AreAuthorityChars :
    (s : Text)
    → any (λ c. c == b'/' || (c == b'?' || (c == b'#' || c == b'\\'))) s ≡ false
    → any (λ c. c == b'@') s ≡ false
    → any is_ascii_whitespace s ≡ false
    → all is_authority_char (to_ascii_lowercase s) ≡ true
lowercase-AreAuthorityChars [] h k l = refl
lowercase-AreAuthorityChars (c ∷ s) h k l =
    ground (arith, lowercase-AreAuthorityChars s, lower-IsAuthorityChar c)

abbrev refuses : Text → Text → Bool
refuses scheme rest =
    not (text_eq scheme (codes "http") || text_eq scheme (codes "https"))
    || is_empty rest
    || any (λ c. c == b'/' || (c == b'?' || (c == b'#' || c == b'\\'))) rest
    || any (λ c. c == b'@') rest
    || any is_ascii_whitespace rest

accepted-IsOrigin :
    (scheme rest : Text)
    → refuses scheme rest ≡ false
    → IsOrigin (scheme ++ (codes "://" ++ to_ascii_lowercase rest))
accepted-IsOrigin scheme rest h = (
  scheme,
  rest,
  refl,
  ground (arith, h),
  ground (arith, h),
  lowercase-AreAuthorityChars rest (ground (arith, h)) (ground (arith, h)) (ground (arith, h)),
)

module _ (parse_ip : Text → Option IpAddr) where
  normalize_origin-IsOrigin :
      (origin normal : Text) → normalize_origin parse_ip origin ≡ ok normal → IsOrigin normal
  unfolding normalize_origin
  normalize_origin-IsOrigin origin normal h =
      let (_, h1) = guard-ok _ untrusted_origin _ normal h in
      let (halves, split, h2) =
        bind-ok (ok_or (split_scheme (trim origin)) untrusted_origin) _ normal h1 in
      let (good, h3) = guard-ok _ untrusted_origin _ normal h2 in
      let (_, valid, h4) = bind-ok (validate_authority parse_ip halves.1) _ normal h3 in
      subst IsOrigin (ok_injective _ normal (ok _) refl h4)
        (accepted-IsOrigin (to_ascii_lowercase halves.0) halves.1 good)

  -- A normal form that is listed is that of a configured origin.
  listed-configured :
      (origins allowed : List Text) (normal : Text)
      → normalize_origins parse_ip origins ≡ ok allowed
      → any (λ a. text_eq a normal) allowed ≡ true
      → (configured : Text) × (any (λ o. text_eq o configured) origins ≡ true)
        × (normalize_origin parse_ip configured ≡ ok normal)
  unfolding normalize_origins
  listed-configured [] allowed normal h k =
      let listed : any (λ a. text_eq a normal) [] ≡ true =
        ap (any (λ a. text_eq a normal)) (ok_injective [] allowed (ok []) refl h) ∙ k in
      cc
  listed-configured (origin ∷ origins) allowed normal h k =
      let (first, e, h1) = bind-ok (normalize_origin parse_ip origin) _ allowed h in
      let (rest, f, h2) = bind-ok (normalize_origins parse_ip origins) _ allowed h1 in
      let listed : any (λ a. text_eq a normal) (first ∷ rest) ≡ true =
        ap (any (λ a. text_eq a normal))
          (ok_injective (first ∷ rest) allowed (ok (first ∷ rest)) refl h2)
        ∙ k in
      elim (Bool-cases (text_eq first normal)) [
        | inl here ↦
            (origin, rw (text_eq_refl origin) refl, e ∙ ap ok ((text_eq_iff first normal).0 here))
        | inr past ↦
            let (configured, m, g) =
              listed-configured origins rest normal f (ground (arith, past, listed)) in
            (configured, ground (arith, m), g)
      ]

  ok_and-true :
      (result : Result AuthHttpError Text) (p : Text → Bool)
      → is_ok_and result p ≡ true
      → (normal : Text) × (result ≡ ok normal) × (p normal ≡ true)
  ok_and-true (ok normal) p h = (normal, refl, h)
  ok_and-true (err e) p h = cc

  -- An origin header that a policy trusts has a normal form, which is that of one of the origins the
  -- policy was made of, and it is a scheme of the web with an authority in lower case: no path, query, fragment,
  -- user information or white space is behind it.
  pub is_trusted-configured :
      (origins : List Text) (policy : TrustedOriginPolicy) (origin : Text) (referer : Option Text)
      → new_trusted_origin_policy parse_ip origins ≡ ok policy
      → is_trusted parse_ip policy (some origin) referer ≡ true
      → (normal : Text) × (normalize_origin parse_ip origin ≡ ok normal)
        × IsOrigin normal
        × (configured : Text) × (any (λ o. text_eq o configured) origins ≡ true)
        × (normalize_origin parse_ip configured ≡ ok normal)
  unfolding new_trusted_origin_policy is_trusted
  is_trusted-configured origins policy origin referer h k =
      let (allowed, e, h1) = bind-ok (normalize_origins parse_ip origins) _ policy h in
      let (normal, f, listed) = ok_and-true (normalize_origin parse_ip origin) _ k in
      let same =
        ok_injective (record { allowed_origins = allowed; require_origin_or_referer = true }) policy
          _ refl h1 in
      let (configured, member, g) =
        listed-configured origins allowed normal e
          (ap (λ p. any (λ a. text_eq a normal) p.allowed_origins) same ∙ listed) in
      (normal, f, normalize_origin-IsOrigin origin normal f, configured, member, g)
