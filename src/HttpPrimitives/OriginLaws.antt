-- ===== src/HttpPrimitives/OriginLaws.antt =====
-- What an origin of crates/http-primitives/src/lib.rs is once it is parsed.
use world_infra.Prelude.{
  ℕ, ◌+◌, ◌*◌, ◌-◌, ◌≤◌, ◌≡◌, refl, true, false, not, ◌||◌, Option, none, some, is_some, List, [],
  ◌∷◌, All, any, ◌==◌, ok, fail_if, ok_or, ◌>>◌, IfOk, IfOk-bind, IfOk-guard, IfOk-if, IfOk-ok,
  IfOk-of, IfOk-err, arith,
}
use world_infra.Text.{Text, codes, is_empty, trim}
use world_infra.Text.Scan.{
  to_ascii_lowercase, is_ascii_uppercase, split_once, split_scheme, rsplit_once, strip_prefix,
  starts_with, parse_unsigned, parse_digits,
}
use world_infra.HttpPrimitives.{invalid_origin}
use world_infra.HttpPrimitives.Addresses.{items, collect}
use world_infra.HttpPrimitives.Origins.{
  Origin, is_web_scheme, valid_unbracketed_origin_host, parse_origin_port, bracket_port,
  bracketed_host_port, colon_host_port, plain_host_port, parse_host_port, parse_origin,
  parse_allowed_origins,
}

abbrev pub IsPort : Option ℕ → Type 0
IsPort none = Unit
IsPort (some port) = (1 ≤ port) × (port ≤ 65535)

-- A scheme of the web, a host without capital letters and a port of 16 bits other than 0.
abbrev pub IsOrigin : Origin → Type 0
IsOrigin origin =
    (is_web_scheme origin.scheme ≡ true)
    × (any is_ascii_uppercase origin.host ≡ false)
    × IsPort origin.port

lowercase-plain : (s : Text) → any is_ascii_uppercase (to_ascii_lowercase s) ≡ false
lowercase-plain [] = refl
lowercase-plain (c ∷ s) = ground (arith, lowercase-plain s)

parse_digits-le :
    (limit value n : ℕ) (s : Text) → value ≤ limit → parse_digits limit value s ≡ some n → n ≤ limit
unfolding parse_digits
parse_digits-le limit value n [] h k = ground (arith, h, k)
parse_digits-le limit value n (c ∷ s) h k =
    ground (arith, h, k, parse_digits-le limit (value * 10 + (c - b'0')) n s)

parse_unsigned-le : (limit n : ℕ) (s : Text) → parse_unsigned limit s ≡ some n → n ≤ limit
unfolding parse_unsigned
parse_unsigned-le limit n [] h = absurd (ground (arith, h))
parse_unsigned-le limit n (c ∷ s) h =
    ground (arith, h, parse_digits-le limit 0 n s, parse_digits-le limit 0 n (c ∷ s))

parse_origin_port-IsPort :
    (text : Text) → IfOk (λ port. IsPort (some port)) (parse_origin_port text)
unfolding parse_origin_port
parse_origin_port-IsPort text =
    IfOk-bind _ (ok_or (parse_unsigned 65535 text) invalid_origin) _ (λ port e.
      IfOk-guard _ (port == 0) invalid_origin _ (λ positive.
        IfOk-of _ _ port refl
          (ground (arith, positive), parse_unsigned-le 65535 port text (ground (arith, e)))))

bracket_port-IsPort : (tail : Text) → IfOk IsPort (bracket_port tail)
unfolding bracket_port
bracket_port-IsPort tail = IfOk-if IsPort (is_empty tail) _ _ (IfOk-of IsPort _ none refl tt) (
    IfOk-bind IsPort (ok_or (strip_prefix (codes ":") tail) invalid_origin) _ (λ text e.
      IfOk-bind IsPort (parse_origin_port text) _ (λ port f.
        IfOk-of IsPort _ (some port) refl (IfOk-ok _ _ port (parse_origin_port-IsPort text) f))))

-- The second part of the answer is a port.
abbrev HasPort : Text × Option ℕ → Type 0
HasPort parts = IsPort parts.1

module _ (parse_v6 : Text → Option ℕ) where
  bracketed-HasPort : (value : Text) → IfOk HasPort (bracketed_host_port parse_v6 value)
  unfolding bracketed_host_port
  bracketed-HasPort value =
      IfOk-bind HasPort (ok_or (split_once b']' value) invalid_origin) _ (λ halves e.
        IfOk-bind HasPort (bracket_port halves.1) _ (λ port f.
          IfOk-bind HasPort (ok_or (strip_prefix (codes "[") halves.0) invalid_origin) _ (λ host g.
            IfOk-guard HasPort _ invalid_origin _ (λ good.
              IfOk-of HasPort _ (host, port) refl
                (IfOk-ok IsPort _ port (bracket_port-IsPort halves.1) f)))))

  colon-HasPort : (value host text : Text) → IfOk HasPort (colon_host_port parse_v6 value host text)
  unfolding colon_host_port
  colon-HasPort value host text =
      IfOk-if HasPort (any (λ c. c == b':') host) _ _
        (IfOk-if HasPort (is_some (parse_v6 value)) _ _ (IfOk-of HasPort _ (value, none) refl tt)
          (IfOk-err HasPort invalid_origin))
        (IfOk-guard HasPort _ invalid_origin _ (λ good.
          IfOk-bind HasPort (parse_origin_port text) _ (λ port f.
            IfOk-of HasPort _ (host, some port) refl
              (IfOk-ok _ _ port (parse_origin_port-IsPort text) f))))

  plain-HasPort : (value : Text) → IfOk HasPort (plain_host_port parse_v6 value)
  unfolding plain_host_port
  plain-HasPort value =
      elim (rsplit_once b':' value)
        as (λ halves. IfOk HasPort (elim halves [
          | some halves ↦ colon_host_port parse_v6 value halves.0 halves.1
          | none ↦
              fail_if (not (valid_unbracketed_origin_host value)) invalid_origin >> ok (value, none)
        ])) [
          | some halves ↦ colon-HasPort value halves.0 halves.1
          | none ↦
              IfOk-guard HasPort _ invalid_origin (ok (value, none))
                (λ good. IfOk-of HasPort _ (value, none) refl tt)
        ]

  parse_origin-IsOrigin : (value : Text) → IfOk IsOrigin (parse_origin parse_v6 value)
  unfolding parse_origin parse_host_port
  parse_origin-IsOrigin value =
      IfOk-bind IsOrigin (ok_or (split_scheme (trim value)) invalid_origin) _ (λ halves e.
        IfOk-guard IsOrigin (not (is_web_scheme (to_ascii_lowercase halves.0))) invalid_origin _
          (λ web.
            IfOk-guard IsOrigin (is_empty halves.1 || any (λ c. c == b'/') halves.1) invalid_origin
              _
              (λ good. IfOk-bind IsOrigin (parse_host_port parse_v6 halves.1) _ (λ parts f.
                IfOk-of IsOrigin _
                  (record {
                    scheme = to_ascii_lowercase halves.0;
                    host = to_ascii_lowercase parts.0;
                    port = parts.1;
                  })
                  refl
                  (
                    ground (arith, web),
                    lowercase-plain parts.0,
                    IfOk-ok HasPort _ parts
                        (IfOk-if HasPort (starts_with b'[' halves.1) _ _
                          (bracketed-HasPort halves.1) (plain-HasPort halves.1))
                        f,
                  )))))

  collect-AreOrigins :
      (items : List Text) → IfOk (All IsOrigin) (collect (parse_origin parse_v6) items)
  unfolding collect
  collect-AreOrigins [] = IfOk-of (All IsOrigin) _ [] refl tt
  collect-AreOrigins (item ∷ items) =
      IfOk-bind (All IsOrigin) (parse_origin parse_v6 item) _ (λ origin e.
        IfOk-bind (All IsOrigin) (collect (parse_origin parse_v6) items) _ (λ origins f.
          IfOk-of (All IsOrigin) _ (origin ∷ origins) refl (
            IfOk-ok IsOrigin _ origin (parse_origin-IsOrigin item) e,
            IfOk-ok (All IsOrigin) _ origins (collect-AreOrigins items) f,
          )))

  -- Every origin of a list that is accepted has a scheme of the web, a host without capital letters and
  -- either no port or one from 1 to 65535.
  pub parse_allowed_origins-AreOrigins :
      (value : Text) (origins : List Origin)
      → parse_allowed_origins parse_v6 value ≡ ok origins
      → All IsOrigin origins
  unfolding parse_allowed_origins
  parse_allowed_origins-AreOrigins value origins h =
      IfOk-ok (All IsOrigin) _ origins (collect-AreOrigins (items value)) h
