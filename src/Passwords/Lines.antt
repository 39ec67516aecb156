-- ===== src/Passwords/Lines.antt =====
-- The lines of a file of breached passwords, for the search of crates/auth-password-core/src/lib.rs.
use world_infra.Prelude.{
  ℕ, zero, suc, ◌+◌, ◌≤◌, ◌<◌, ◌≡◌, ◌≢◌, refl, sym, ap, ◌∙◌, Bool, true, false, ◌||◌, Option, some,
  List, [], ◌∷◌, ◌++◌, append_assoc, any, All, length, ◌==◌, Bool-cases, inl, inr, ok, arith,
}
use world_infra.Text.{Text, text_eq}
use world_infra.Text.Laws.{text_eq_iff}
use world_infra.Passwords.Breaches.{
  less, equal, greater, text_cmp, breached_hash_from_line, line_hash_cmp, drop, is_newline_at,
  take_line, compare_line,
}

-- A line without its newline, and the hash that it holds.
pub record HashLine : Type 0 where
  pub body : List ℕ
  pub hash : Text

-- The bytes of a line, and of lines one after the other.
abbrev pub line_bytes : HashLine → List ℕ
line_bytes line = line.body ++ b'\n' ∷ []

abbrev pub file_bytes : List HashLine → List ℕ
file_bytes [] = []
file_bytes (line ∷ lines) = line.body ++ b'\n' ∷ file_bytes lines

-- The body has no newline and more than one byte, and the line is text in which the hash is found.
abbrev pub IsHashLine : (List ℕ → Option Text) → HashLine → Type 0
IsHashLine from_utf8 line =
    (any (λ byte. byte == b'\n') line.body ≡ false)
    × (2 ≤ length line.body)
    × (text : Text) × (from_utf8 (line_bytes line) ≡ some text)
    × (breached_hash_from_line text ≡ some line.hash)

pub compare_line-hash :
    (from_utf8 : List ℕ → Option Text) (line : HashLine) (password_hash : Text)
    → IsHashLine from_utf8 line
    → compare_line from_utf8 (line_bytes line) password_hash ≡ ok (text_cmp line.hash password_hash)
unfolding compare_line line_hash_cmp
compare_line-hash from_utf8 line password_hash (plain, long, text, e, f) = rw (e, f) refl

pub take_line-body :
    (body rest : List ℕ)
    → any (λ byte. byte == b'\n') body ≡ false
    → take_line (body ++ b'\n' ∷ rest) ≡ body ++ b'\n' ∷ []
take_line-body [] rest h = refl
take_line-body (byte ∷ body) rest h = ground (arith, take_line-body body rest)

pub file_bytes-append :
    (xs ys : List HashLine) → file_bytes (xs ++ ys) ≡ file_bytes xs ++ file_bytes ys
file_bytes-append [] ys = refl
file_bytes-append (line ∷ xs) ys =
    ap (λ rest. line.body ++ b'\n' ∷ rest) (file_bytes-append xs ys)
    ∙ sym (append_assoc line.body (b'\n' ∷ file_bytes xs) (file_bytes ys))

drop-append : (xs ys : List ℕ) → drop (length xs) (xs ++ ys) ≡ ys
drop-append [] ys = refl
drop-append (x ∷ xs) ys = drop-append xs ys

pub suc_add : (m n : ℕ) → suc m + n ≡ suc (m + n)
suc_add m n = omega arith

pub drop-nil : (n : ℕ) → drop n [] ≡ []
drop-nil zero = refl
drop-nil (suc n) = refl

pub drop-drop : (m n : ℕ) (bytes : List ℕ) → drop n (drop m bytes) ≡ drop (m + n) bytes
drop-drop zero n bytes = ap (λ k. drop k bytes) (omega arith)
drop-drop (suc m) n [] = drop-nil n ∙ sym (drop-nil (suc m + n))
drop-drop (suc m) n (byte ∷ bytes) =
    drop-drop m n bytes ∙ ap (λ k. drop k (byte ∷ bytes)) (sym (suc_add m n))

pub is_newline_at-drop :
    (m n : ℕ) (bytes : List ℕ) → is_newline_at (drop m bytes) n ≡ is_newline_at bytes (m + n)
is_newline_at-drop zero n bytes = ap (is_newline_at bytes) (omega arith)
is_newline_at-drop (suc m) n [] = refl
is_newline_at-drop (suc m) n (byte ∷ bytes) =
    is_newline_at-drop m n bytes ∙ ap (is_newline_at (byte ∷ bytes)) (sym (suc_add m n))

pub is_newline_at-body :
    (body rest : List ℕ) (n : ℕ)
    → any (λ byte. byte == b'\n') body ≡ false
    → n < length body
    → is_newline_at (body ++ rest) n ≡ false
is_newline_at-body [] rest n h k = absurd (omega arith)
is_newline_at-body (byte ∷ body) rest zero h k = ground (arith, h)
is_newline_at-body (byte ∷ body) rest (suc n) h k =
    is_newline_at-body body rest n (ground (arith, h)) (omega arith)

pub is_newline_at-end :
    (body rest : List ℕ) → is_newline_at (body ++ b'\n' ∷ rest) (length body) ≡ true
is_newline_at-end [] rest = refl
is_newline_at-end (byte ∷ body) rest = is_newline_at-end body rest

-- The order of texts.
pub text_cmp-equal : (s t : Text) → text_cmp s t ≡ equal → text_eq s t ≡ true
text_cmp-equal [] [] h = refl
text_cmp-equal [] (d ∷ t) h = cc
text_cmp-equal (c ∷ s) [] h = cc
text_cmp-equal (c ∷ s) (d ∷ t) h = ground (arith, h, text_cmp-equal s t)

text_cmp_refl : (s : Text) → text_cmp s s ≡ equal
text_cmp_refl [] = refl
text_cmp_refl (c ∷ s) = ground (arith, text_cmp_refl s)

-- A text that is not greater than one that is less is less, and what is not less than a greater one is
-- greater.
text_cmp-less : (s t u : Text) → text_cmp s t ≢ greater → text_cmp t u ≡ less → text_cmp s u ≡ less
text_cmp-less [] [] u h k = k
text_cmp-less [] (d ∷ t) [] h k = cc
text_cmp-less [] (d ∷ t) (e ∷ u) h k = refl
text_cmp-less (c ∷ s) [] u h k = absurd (h refl)
text_cmp-less (c ∷ s) (d ∷ t) [] h k = cc
text_cmp-less (c ∷ s) (d ∷ t) (e ∷ u) h k = ground (arith, h, k, text_cmp-less s t u)

pub text_cmp-greater :
    (s t u : Text) → text_cmp s t ≢ greater → text_cmp s u ≡ greater → text_cmp t u ≡ greater
text_cmp-greater [] t [] h k = cc
text_cmp-greater [] t (e ∷ u) h k = cc
text_cmp-greater (c ∷ s) [] u h k = absurd (h refl)
text_cmp-greater (c ∷ s) (d ∷ t) [] h k = refl
text_cmp-greater (c ∷ s) (d ∷ t) (e ∷ u) h k = ground (arith, h, k, text_cmp-greater s t u)

-- The hashes of lines in their order.
abbrev pub NotAbove : HashLine → HashLine → Type 0
NotAbove line next = text_cmp line.hash next.hash ≢ greater

abbrev pub IsSorted : List HashLine → Type 0
IsSorted [] = Unit
IsSorted (line ∷ lines) = All (NotAbove line) lines × IsSorted lines

abbrev pub holds : Text → List HashLine → Bool
holds password_hash lines = any (λ line. text_eq line.hash password_hash) lines

pub All-append {ℓ κ} :
    {A : Type ℓ} (P : A → Type κ) (xs ys : List A) → All P (xs ++ ys) → All P xs × All P ys
All-append P [] ys h = (tt, h)
All-append P (x ∷ xs) ys (h, k) = let (l, r) = All-append P xs ys k in ((h, l), r)

pub IsSorted-append : (xs ys : List HashLine) → IsSorted (xs ++ ys) → IsSorted xs × IsSorted ys
IsSorted-append [] ys h = (tt, h)
IsSorted-append (x ∷ xs) ys (h, k) =
    let (sorted_xs, sorted_ys) = IsSorted-append xs ys k in
    let (above_xs, above_ys) = All-append (NotAbove x) xs ys h in ((above_xs, sorted_xs), sorted_ys)

text_eq-false : (s t : Text) → text_cmp s t ≢ equal → text_eq s t ≡ false
text_eq-false s t h = elim (Bool-cases (text_eq s t)) [
  | inl same ↦ absurd (h (ap (text_cmp s) (sym ((text_eq_iff s t).0 same)) ∙ text_cmp_refl s))
  | inr other ↦ other
]

text_eq-less : (s t : Text) → text_cmp s t ≡ less → text_eq s t ≡ false
text_eq-less s t h = text_eq-false s t (λ e. cc)

pub text_eq-greater : (s t : Text) → text_cmp s t ≡ greater → text_eq s t ≡ false
text_eq-greater s t h = text_eq-false s t (λ e. cc)

none_above :
    (password_hash : Text) (line : HashLine) (ys : List HashLine)
    → All (NotAbove line) ys
    → text_cmp line.hash password_hash ≡ greater
    → holds password_hash ys ≡ false
none_above password_hash line [] h k = refl
none_above password_hash line (y ∷ ys) (h, l) k =
    rw (text_eq-greater y.hash password_hash (text_cmp-greater line.hash y.hash password_hash h k))
      (none_above password_hash line ys l k)

-- In front of a line that is less, no line holds the hash.
pub holds-below :
    (password_hash : Text) (xs : List HashLine) (line : HashLine) (ys : List HashLine)
    → IsSorted (xs ++ line ∷ ys)
    → text_cmp line.hash password_hash ≡ less
    → holds password_hash (xs ++ line ∷ ys) ≡ holds password_hash ys
holds-below password_hash [] line ys h k = rw (text_eq-less line.hash password_hash k) refl
holds-below password_hash (x ∷ xs) line ys (h, k) l =
    let (_, (before, _)) = All-append (NotAbove x) xs (line ∷ ys) h in
    rw (text_eq-less x.hash password_hash (text_cmp-less x.hash line.hash password_hash before l))
      (holds-below password_hash xs line ys k l)

-- A line that is greater, and those behind it, do not hold the hash.
pub holds-above :
    (password_hash : Text) (xs : List HashLine) (line : HashLine) (ys : List HashLine)
    → IsSorted (xs ++ line ∷ ys)
    → text_cmp line.hash password_hash ≡ greater
    → holds password_hash (xs ++ line ∷ ys) ≡ holds password_hash xs
holds-above password_hash [] line ys (h, k) l =
    rw (text_eq-greater line.hash password_hash l) (none_above password_hash line ys h l)
holds-above password_hash (x ∷ xs) line ys (h, k) l =
    ap (text_eq x.hash password_hash ||◌) (holds-above password_hash xs line ys k l)
