-- ===== src/TenantScope/Literal.antt =====
-- The literals that crates/tenant-scope-sqlx/src/lib.rs writes, against a reader of PostgreSQL's escape strings.
use world_infra.Prelude.{
  ℕ, ◌≡◌, refl, true, false, not, Bool, ◌||◌, Option, none, some, [], ◌∷◌, ◌++◌, append_assoc, ◌==◌,
  ==_iff, ok, bind-ok, ok_injective, subst, append-nil, Bool-cases, inl, inr, ap, sym, arith,
  if◌then◌else◌,
}
use world_infra.Text.{Text, codes}
use world_infra.Text.Scan.{replace, starts_with}
use world_infra.TenantScope.{
  ScopeValue, SettingName, to_scope_value, quote_setting_value, set_local_statement,
}

-- Where the reader of an escape string is: in the text, behind a quote, or behind a backslash; and behind a
-- quote that may close the literal, with the SQL from there on: in white space, which has a newline in it or
-- not, behind a minus sign, or in a comment.
pub data Place : Type 0 where
  inside behind_quote behind_backslash : Place
  in_space behind_minus : Bool → Text → Place
  in_comment : Text → Place

abbrev pub is_newline : ℕ → Bool
is_newline c = c == b'\n' || c == b'\r'

-- Space, tab, vertical tab, form feed.
abbrev pub is_blank : ℕ → Bool
is_blank c = c == b' ' || (c == b'\t' || (c == 11 || c == 12))

abbrev pub onto : ℕ → Option (Text × Text) → Option (Text × Text)
onto c none = none
onto c (some (value, rest)) = some (c ∷ value, rest)

-- The place behind a character that may stand between two parts of a literal.
abbrev pub gap : Bool → Text → ℕ → Option Place
gap newline rest c =
    if is_newline c
    then some (in_space true rest)
    else if is_blank c
    then some (in_space newline rest)
    else if c == b'-'
    then some (behind_minus newline rest)
    else none

-- What PostgreSQL reads after `E'`: the value, and the SQL behind the closing quote. A quote is
-- doubled or has a backslash in front, and so does a backslash; other escapes are not needed here. A
-- quote behind white space and comments with a newline among them goes on with the literal.
unfoldable pub read_body : Place → Text → Option (Text × Text)
read_body inside [] = none
read_body behind_backslash [] = none
read_body behind_quote [] = some ([], [])
read_body (in_space newline rest) [] = some ([], rest)
read_body (behind_minus newline rest) [] = some ([], rest)
read_body (in_comment rest) [] = some ([], rest)
read_body inside (c ∷ s) =
    if c == b'\''
    then read_body behind_quote s
    else if c == b'\\'
    then read_body behind_backslash s
    else onto c (read_body inside s)
read_body behind_backslash (c ∷ s) =
    if c == b'\\' || c == b'\'' then onto c (read_body inside s) else none
read_body behind_quote (c ∷ s) =
    if c == b'\''
    then onto b'\'' (read_body inside s)
    else elim (gap false (c ∷ s) c) [ none ↦ some ([], c ∷ s) | some place ↦ read_body place s ]
read_body (in_space newline rest) (c ∷ s) =
    if c == b'\''
    then (if newline then read_body inside s else some ([], rest))
    else elim (gap newline rest c) [ none ↦ some ([], rest) | some place ↦ read_body place s ]
read_body (behind_minus newline rest) (c ∷ s) =
    if c == b'-' then read_body (in_comment rest) s else some ([], rest)
read_body (in_comment rest) (c ∷ s) =
    if is_newline c then read_body (in_space true rest) s else read_body (in_comment rest) s

-- A text without the white space in front.
unfoldable pub skip_space : Text → Text
skip_space [] = []
skip_space (c ∷ s) = let rest = skip_space s in if is_newline c || is_blank c then rest else c ∷ s

unfoldable pub read_literal : Text → Option (Text × Text)
read_literal (e ∷ q ∷ s) =
    if e == b'E' then (if q == b'\'' then read_body inside s else none) else none
read_literal _ = none

abbrev escape : Text → Text
escape value = replace b'\'' (codes "''") (replace b'\\' (codes "\\\\") value)

-- Past its white space the SQL does not begin with a quote or a minus sign.
abbrev pub ends_literal : Text → Bool
ends_literal rest = not (starts_with b'\'' (skip_space rest) || starts_with b'-' (skip_space rest))

read_body-in_space :
    (newline : Bool) (rest s : Text)
    → ends_literal s ≡ true
    → read_body (in_space newline rest) s ≡ some ([], rest)
unfolding read_body skip_space
read_body-in_space newline rest [] h = refl
read_body-in_space newline rest (c ∷ s) h =
    ground (arith, h, read_body-in_space true rest s, read_body-in_space newline rest s)

read_body-behind_quote :
    (rest : Text) → ends_literal rest ≡ true → read_body behind_quote rest ≡ some ([], rest)
unfolding read_body skip_space
read_body-behind_quote [] h = refl
read_body-behind_quote (c ∷ s) h =
    ground (arith, h, read_body-in_space true (c ∷ s) s, read_body-in_space false (c ∷ s) s)

read_body-escape :
    (value rest : Text)
    → ends_literal rest ≡ true
    → read_body inside (escape value ++ b'\'' ∷ rest) ≡ some (value, rest)
unfolding read_body replace
read_body-escape [] rest h = read_body-behind_quote rest h
read_body-escape (c ∷ value) rest h = elim (Bool-cases (c == b'\\')) [
  | inl bs ↦
      rw (bs, read_body-escape value rest h)
        (ap (λ d. some (d ∷ value, rest)) (sym ((==_iff c b'\\').0 bs)))
  | inr plain ↦ elim (Bool-cases (c == b'\'')) [
    | inl quote ↦
        rw (plain, quote, read_body-escape value rest h)
          (ap (λ d. some (d ∷ value, rest)) (sym ((==_iff c b'\'').0 quote)))
    | inr other ↦ rw (plain, other, other, plain, read_body-escape value rest h) refl
  ]
]

-- The text of a quoted value is `E'`, the escaped text of the value and a quote.
quote_setting_value_text :
    (v : ScopeValue) (q : Text)
    → quote_setting_value v ≡ ok q
    → (t : Text) × (to_scope_value v ≡ ok t) × (q ≡ codes "E'" ++ (escape t ++ codes "'"))
unfolding quote_setting_value
quote_setting_value_text v q h =
    let (t, good, text) =
      bind-ok (to_scope_value v) (λ u. ok (codes "E'" ++ (escape u ++ codes "'"))) q h in
    (t, good, cc)

read_literal-escape :
    (t rest : Text)
    → ends_literal rest ≡ true
    → read_literal ((codes "E'" ++ (escape t ++ codes "'")) ++ rest) ≡ some (t, rest)
unfolding read_literal
read_literal-escape t rest h =
    rw (append_assoc (escape t) (codes "'") rest) (read_body-escape t rest h)

-- A quoted value reads back as the value, with nothing of the SQL behind it taken in, when that SQL, past
-- its white space, is empty or begins with neither a quote nor a minus sign, so that it does not go on with the
-- literal.
pub read_literal-quote_setting_value :
    (v : ScopeValue) (q t rest : Text)
    → quote_setting_value v ≡ ok q
    → to_scope_value v ≡ ok t
    → ends_literal rest ≡ true
    → read_literal (q ++ rest) ≡ some (t, rest)
read_literal-quote_setting_value v q t rest quoted value h =
    let (u, same, text) = quote_setting_value_text v q quoted in
    let equal : u ≡ t = ok_injective u t (to_scope_value v) same value in
    rw (text, equal) (read_literal-escape t rest h)

-- The statement `SET LOCAL` for a value: the prefix, the name, the sign of equality, and a literal
-- that reads back as the value and ends the statement.
pub set_local_statement-read_literal :
    (name : SettingName) (v : ScopeValue) (statement : Text)
    → set_local_statement name v ≡ ok statement
    → (q t : Text) × (statement ≡ codes "SET LOCAL " ++ (name.value ++ (codes " = " ++ q)))
      × (to_scope_value v ≡ ok t)
      × (read_literal q ≡ some (t, []))
unfolding set_local_statement skip_space
set_local_statement-read_literal name v statement h =
    let (q, quoted, whole) =
      bind-ok (quote_setting_value v)
        (λ q. ok (codes "SET LOCAL " ++ (name.value ++ (codes " = " ++ q)))) statement h in
    let (t, value, text) = quote_setting_value_text v q quoted in
    (
      q,
      t,
      cc,
      value,
      subst (λ p. read_literal p ≡ some (t, [])) (append-nil q)
          (read_literal-quote_setting_value v q t [] quoted value refl),
    )
