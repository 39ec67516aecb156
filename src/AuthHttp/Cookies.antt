-- ===== src/AuthHttp/Cookies.antt =====
-- The parts of a cookie header, read as a browser splits it.
use world_infra.Prelude.{
  ℕ, ◌≡◌, refl, sym, ap, ◌∙◌, Bool, true, false, not, ◌&&◌, ◌||◌, Option, none, some, List, [], ◌∷◌,
  ◌++◌, append_assoc, append-nil, any, all, All, any-not, all_wide, leb, ltb, ◌==◌, ok, fail_if,
  bind-ok, guard-ok, ok_injective, arith, if◌then◌else◌,
}
use world_infra.Text.{Text, codes, text_eq, byte_length, is_ascii_alphanumeric, trim, is_empty}
use world_infra.Text.Decimal.{decimal, IsDigit, decimal-IsDigit}
use world_infra.Text.Scan.{starts_with, ends_with, split, contains}
use world_infra.Text.Split.{all-split, split_plain, split-append}
use world_infra.AuthHttp.{
  AuthHttpError, invalid_cookie_name, invalid_cookie_value, invalid_cookie_domain,
  invalid_cookie_path, SameSite, lax, strict, same_site_none, as_str, is_name_byte,
  validate_cookie_name, is_unsafe_value_byte, validate_cookie_value, is_unsafe_path_byte,
  validate_cookie_path, is_label_byte, valid_cookie_domain_label, validate_cookie_domain,
  validate_domain, RefreshCookieConfig, validate_cookie, duration_secs, domain_attribute,
  end_of_cookie, build_set_cookie,
}

-- A printable character of ASCII that does not end a part.
abbrev pub is_part_char : ℕ → Bool
is_part_char c = (leb 0x20 c && leb c 0x7e) && not (c == b';')

-- The texts behind the semicolons.
attributes_text : List Text → Text
attributes_text [] = []
attributes_text (part ∷ parts) = b';' ∷ (part ++ attributes_text parts)

part-plain : (s : Text) → all is_part_char s ≡ true → any (λ c. c == b';') s ≡ false
part-plain [] h = refl
part-plain (c ∷ s) h = ground (arith, part-plain s)

split-attributes_text :
    (first : Text) (parts : List Text)
    → all (all is_part_char) (first ∷ parts) ≡ true
    → split b';' (first ++ attributes_text parts) ≡ first ∷ parts
unfolding attributes_text
split-attributes_text first [] h =
    ap (split b';') (append-nil first) ∙ split_plain b';' first (part-plain first (ground arith))
split-attributes_text first (part ∷ parts) h =
    split-append b';' first (part ++ attributes_text parts) (part-plain first (ground arith))
    ∙ ap (first ∷◌) (split-attributes_text part parts (ground arith))

all-append {ℓ} :
    {A : Type ℓ} (p : A → Bool) (s t : List A)
    → all p s ≡ true
    → all p t ≡ true
    → all p (s ++ t) ≡ true
all-append p [] t h k = k
all-append p (c ∷ s) t h k = ground (arith, all-append p s t)

passed : (refused : Bool) (e : AuthHttpError) → fail_if refused e ≡ ok tt → refused ≡ false
passed true e h = absurd cc
passed false e h = refl

all_safe :
    (unsafe : ℕ → Bool) (s : Text)
    → ((c : ℕ) → unsafe c ≡ false → is_part_char c ≡ true)
    → any unsafe s ≡ false
    → all is_part_char s ≡ true
all_safe unsafe [] f h = refl
all_safe unsafe (c ∷ s) f h = ground (arith, all_safe unsafe s f, f c)

name-IsSafe : (name : Text) → validate_cookie_name name ≡ ok tt → all is_part_char name ≡ true
unfolding validate_cookie_name
name-IsSafe name h =
    let good =
      passed
        (is_empty name || ltb 128 (byte_length name) || any (λ byte. not (is_name_byte byte)) name)
        invalid_cookie_name h in
    all_wide is_name_byte is_part_char name (λ c k. ground arith)
      (any-not is_name_byte name (ground (arith, good)))

value-IsSafe : (value : Text) → validate_cookie_value value ≡ ok tt → all is_part_char value ≡ true
unfolding validate_cookie_value
value-IsSafe value h =
    let good = passed (is_empty value || any is_unsafe_value_byte value) invalid_cookie_value h in
    all_safe is_unsafe_value_byte value (λ c k. ground arith) (ground (arith, good))

path-IsSafe : (path : Text) → validate_cookie_path path ≡ ok tt → all is_part_char path ≡ true
unfolding validate_cookie_path
path-IsSafe path h =
    let good =
      passed (not (starts_with b'/' path) || any is_unsafe_path_byte path) invalid_cookie_path h in
    all_safe is_unsafe_path_byte path (λ c k. ground arith) (ground (arith, good))

labels-safe :
    (labels : List Text)
    → all valid_cookie_domain_label labels ≡ true
    → all (all is_label_byte) labels ≡ true
unfolding valid_cookie_domain_label
labels-safe [] h = refl
labels-safe (label ∷ labels) h = ground (arith, labels-safe labels)

domain-IsSafe :
    (domain : Text) → validate_cookie_domain domain ≡ ok tt → all is_part_char domain ≡ true
unfolding validate_cookie_domain is_ascii_alphanumeric
domain-IsSafe domain h =
    let bad =
      is_empty domain
      || starts_with b'.' domain
      || ends_with b'.' domain
      || contains (codes "..") domain
      || not (all valid_cookie_domain_label (split b'.' domain)) in
    let (_, rest) =
      guard-ok (not (text_eq (trim domain) domain)) invalid_cookie_domain
        (fail_if bad invalid_cookie_domain) tt h in
    let good = passed bad invalid_cookie_domain rest in
    let labels : all valid_cookie_domain_label (split b'.' domain) ≡ true = ground (arith, good) in
    all_wide (λ c. is_label_byte c || c == b'.') is_part_char domain (λ c k. ground arith)
      (all-split is_label_byte b'.' domain (labels-safe (split b'.' domain) labels))

-- The attributes of a configuration, one after the other.
abbrev pub domain_parts : Option Text → List Text
domain_parts none = []
domain_parts (some domain) = (codes " Domain=" ++ domain) ∷ []

abbrev pub attributes : RefreshCookieConfig → List Text
attributes config =
    (codes " Path=" ++ config.path)
    ∷ (codes " Max-Age=" ++ decimal (duration_secs config.max_age))
    ∷ (domain_parts config.domain
        ++ ((if config.http_only then codes " HttpOnly" ∷ [] else [])
            ++ ((if config.secure then codes " Secure" ∷ [] else [])
                ++ (codes " SameSite=" ++ as_str config.same_site) ∷ [])))

end_of_cookie-attributes :
    (domain : Option Text) (http_only secure : Bool) (site : Text)
    → domain_attribute domain
        ++ ((if http_only then codes "; HttpOnly" else [])
            ++ ((if secure then codes "; Secure" else []) ++ (codes "; SameSite=" ++ site)))
      ≡ attributes_text (
          domain_parts domain
          ++ ((if http_only then codes " HttpOnly" ∷ [] else [])
              ++ ((if secure then codes " Secure" ∷ [] else [])
                  ++ (codes " SameSite=" ++ site) ∷ [])))
unfolding attributes_text
end_of_cookie-attributes none true true site = rw (append-nil site) refl
end_of_cookie-attributes none true false site = rw (append-nil site) refl
end_of_cookie-attributes none false true site = rw (append-nil site) refl
end_of_cookie-attributes none false false site = rw (append-nil site) refl
end_of_cookie-attributes (some domain) true true site = rw (append-nil site) refl
end_of_cookie-attributes (some domain) true false site = rw (append-nil site) refl
end_of_cookie-attributes (some domain) false true site = rw (append-nil site) refl
end_of_cookie-attributes (some domain) false false site = rw (append-nil site) refl

site-IsSafe : (site : SameSite) → all is_part_char (as_str site) ≡ true
site-IsSafe lax = refl
site-IsSafe strict = refl
site-IsSafe same_site_none = refl

digits-AreSafe : (digits : Text) → All IsDigit digits → all is_part_char digits ≡ true
digits-AreSafe [] h = refl
digits-AreSafe (c ∷ digits) (d, h) = ground (arith, digits-AreSafe digits h)

domain_parts-AreSafe :
    (domain : Option Text)
    → validate_domain domain ≡ ok tt
    → all (all is_part_char) (domain_parts domain) ≡ true
unfolding validate_domain
domain_parts-AreSafe none h = refl
domain_parts-AreSafe (some domain) h = rw (domain-IsSafe domain h) refl

flags-AreSafe :
    (http_only secure : Bool) (site : SameSite)
    → all (all is_part_char) (
        (if http_only then codes " HttpOnly" ∷ [] else [])
        ++ ((if secure then codes " Secure" ∷ [] else [])
            ++ (codes " SameSite=" ++ as_str site) ∷ []))
      ≡ true
flags-AreSafe true true site = rw (site-IsSafe site) refl
flags-AreSafe true false site = rw (site-IsSafe site) refl
flags-AreSafe false true site = rw (site-IsSafe site) refl
flags-AreSafe false false site = rw (site-IsSafe site) refl

attributes-AreSafe :
    (config : RefreshCookieConfig)
    → validate_cookie_path config.path ≡ ok tt
    → validate_domain config.domain ≡ ok tt
    → all (all is_part_char) (attributes config) ≡ true
attributes-AreSafe config path domain =
    rw
      (
        path-IsSafe config.path path,
        digits-AreSafe (decimal (duration_secs config.max_age))
            (decimal-IsDigit (duration_secs config.max_age)),
      )
      (all-append (all is_part_char) (domain_parts config.domain) _
        (domain_parts-AreSafe config.domain domain)
        (flags-AreSafe config.http_only config.secure config.same_site))

-- What a configuration that passes has passed.
validate_cookie-parts :
    (config : RefreshCookieConfig)
    → validate_cookie config ≡ ok tt
    → (validate_cookie_name config.name ≡ ok tt)
      × (validate_cookie_path config.path ≡ ok tt)
      × (validate_domain config.domain ≡ ok tt)
unfolding validate_cookie
validate_cookie-parts config h =
    let (_, name, h1) = bind-ok (validate_cookie_name config.name) _ tt h in
    let (_, path, h2) = bind-ok (validate_cookie_path config.path) _ tt h1 in
    let (_, domain, _) = bind-ok (validate_domain config.domain) _ tt h2 in (name, path, domain)

first-IsSafe :
    (name value : Text)
    → validate_cookie_name name ≡ ok tt
    → validate_cookie_value value ≡ ok tt
    → all is_part_char (name ++ b'=' ∷ value) ≡ true
first-IsSafe name value n v =
    all-append is_part_char name (b'=' ∷ value) (name-IsSafe name n)
      (rw (value-IsSafe value v) refl)

cookie-attributes_text :
    (config : RefreshCookieConfig) (value : Text)
    → config.name
        ++ (codes "="
            ++ (value
                ++ (codes "; Path="
                    ++ (config.path
                        ++ (codes "; Max-Age="
                            ++ (decimal (duration_secs config.max_age) ++ end_of_cookie config))))))
      ≡ (config.name ++ b'=' ∷ value) ++ attributes_text (attributes config)
unfolding attributes_text end_of_cookie
cookie-attributes_text config value =
    rw
      (end_of_cookie-attributes config.domain config.http_only config.secure
        (as_str config.same_site))
      (sym (append_assoc config.name (b'=' ∷ value) (attributes_text (attributes config))))

-- The header of a cookie is split at its semicolons into the name with the value and the attributes of
-- the configuration, each once and in their order, and every character of a part is printable ASCII other than a
-- semicolon: no name, value, path or domain that is accepted adds an attribute or ends the header.
pub build_set_cookie-split :
    (config : RefreshCookieConfig) (value cookie : Text)
    → build_set_cookie config value ≡ ok cookie
    → (split b';' cookie ≡ (config.name ++ b'=' ∷ value) ∷ attributes config)
      × (all (all is_part_char) ((config.name ++ b'=' ∷ value) ∷ attributes config) ≡ true)
unfolding build_set_cookie
build_set_cookie-split config value cookie h =
    let (_, valid, h1) = bind-ok (validate_cookie config) _ cookie h in
    let (_, safe, h2) = bind-ok (validate_cookie_value value) _ cookie h1 in
    let (name, path, domain) = validate_cookie-parts config valid in
    let parts : all (all is_part_char) ((config.name ++ b'=' ∷ value) ∷ attributes config) ≡ true =
      rw (first-IsSafe config.name value name safe) (attributes-AreSafe config path domain) in
    (
      ap (split b';') (sym (ok_injective _ cookie _ refl h2))
          ∙ ap (split b';') (cookie-attributes_text config value)
          ∙ split-attributes_text (config.name ++ b'=' ∷ value) (attributes config) parts,
      parts,
    )
