-- ===== src/HttpPrimitives/Chains.antt =====
-- The chains of addresses that crates/http-primitives/src/lib.rs walks, from the proxies towards the client.
use mathlib.Core.List.{reverse, reverse-append, reverse-cons, reverse-reverse, map-append}
use world_infra.Prelude.{
  ◌≡◌, refl, sym, ap, append_assoc, ◌&&◌, ◌||◌, ◌∙◌, subst, ◌↔◌, ◌⊎◌, Bool, true, false, not,
  Bool-cases, inl, inr, Option, none, some, List, [], ◌∷◌, ◌++◌, map, retain, retain-append, all,
  if◌then◌else◌, arith,
}
use world_infra.Text.{Text, trim, is_empty}
use world_infra.Text.Scan.{split}
use world_infra.Text.Split.{split-append_both}
use world_infra.HttpPrimitives.Addresses.{IpAddr, Cidr, is_trusted_proxy}
use world_infra.HttpPrimitives.ClientIp.{
  HeaderClientIp, missing, invalid, found, found_or_invalid, entries, walk, walk_header,
  parse_ip_token, parse_forwarded_entry, parse_forwarded_for, parse_x_forwarded_for,
  extract_client_ip,
}

-- What stands behind the last comma is read first.
entries-append :
    (front value : Text) → entries (front ++ b',' ∷ value) ≡ entries value ++ entries front
unfolding entries
entries-append front value =
    let kept = λ (entry : Text). not (is_empty entry) in
    ap (λ parts. retain kept (map trim (reverse parts))) (split-append_both b',' front value)
    ∙ ap (λ parts. retain kept (map trim parts))
        (reverse-append (split b',' front) (split b',' value))
    ∙ ap (retain kept) (map-append trim (reverse (split b',' value)) (reverse (split b',' front)))
    ∙ retain-append kept (map trim (reverse (split b',' value)))
        (map trim (reverse (split b',' front)))

reverse-around {ℓ} :
    {A : Type ℓ} (xs : List A) (a : A) (ys : List A)
    → reverse (xs ++ a ∷ ys) ≡ reverse ys ++ a ∷ reverse xs
reverse-around xs a ys =
    reverse-append xs (a ∷ ys)
    ∙ ap (λ front. front ++ reverse xs) (reverse-cons a ys)
    ∙ append_assoc (reverse ys) (a ∷ []) (reverse xs)

all-append {ℓ} :
    {A : Type ℓ} (p : A → Bool) (xs ys : List A) → all p (xs ++ ys) ≡ (all p xs && all p ys)
all-append p [] ys = refl
all-append p (x ∷ xs) ys = ground (arith, all-append p xs ys)

all-reverse {ℓ} : {A : Type ℓ} (p : A → Bool) (xs : List A) → all p (reverse xs) ≡ all p xs
all-reverse p [] = refl
all-reverse p (x ∷ xs) =
    ap (all p) (reverse-cons x xs)
    ∙ ground (arith, all-append p (reverse xs) (x ∷ []), all-reverse p xs)

-- An entry of a proxy that is trusted.
abbrev pub is_trusted_hop : (Text → HeaderClientIp) → List Cidr → Text → Bool
is_trusted_hop parse_entry trusted_proxies entry = elim (parse_entry entry) [
  | missing ↦ false
  | invalid ↦ false
  | found addr ↦ is_trusted_proxy addr trusted_proxies
]

abbrev is_trusted_found : HeaderClientIp → List Cidr → Bool
is_trusted_found missing trusted_proxies = false
is_trusted_found invalid trusted_proxies = false
is_trusted_found (found addr) trusted_proxies = is_trusted_proxy addr trusted_proxies

header-cases :
    (result : HeaderClientIp)
    → ((result ≡ missing) ⊎ (result ≡ invalid)) ⊎ ((addr : IpAddr) × (result ≡ found addr))
header-cases missing = inl (inl refl)
header-cases invalid = inl (inr refl)
header-cases (found addr) = inr (addr, refl)

module _ (parse_entry : Text → HeaderClientIp) (trusted_proxies : List Cidr) where
  walk-append :
      (saw_entry : Bool) (nearer farther : List Text) (addr : IpAddr)
      → walk parse_entry trusted_proxies saw_entry nearer ≡ found addr
      → walk parse_entry trusted_proxies saw_entry (nearer ++ farther) ≡ found addr
  unfolding walk
  walk-append saw_entry [] farther addr h = ground (arith, h)
  walk-append saw_entry (entry ∷ nearer) farther addr h =
      ground (arith, h, walk-append true nearer farther addr)

  trusted_hop-walk :
      (saw_entry : Bool) (hop : Text) (chain : List Text) (addr : IpAddr)
      → is_trusted_hop parse_entry trusted_proxies hop ≡ true
      → walk parse_entry trusted_proxies true chain ≡ found addr
      → walk parse_entry trusted_proxies saw_entry (hop ∷ chain) ≡ found addr
  unfolding walk
  trusted_hop-walk saw_entry hop chain addr h k = ground (arith, h, k)

  -- A part of a header that is blank, or the entry of a trusted proxy.
  abbrev pub is_passed : Text → Bool
  is_passed part = is_empty (trim part) || is_trusted_hop parse_entry trusted_proxies (trim part)

  -- A part that gives an address which is not a trusted proxy's.
  abbrev pub Gives : Text → IpAddr → Type 0
  Gives part addr =
      (is_empty (trim part) ≡ false)
      × (parse_entry (trim part) ≡ found addr)
      × (is_trusted_proxy addr trusted_proxies ≡ false)

  -- The first part that is not passed gives the address, from the left.
  abbrev Leads : List Text → IpAddr → Type 0
  Leads parts addr =
      (nearer : List Text) × (part : Text) × (farther : List Text) × (parts
        ≡ nearer ++ part ∷ farther)
      × (all is_passed nearer ≡ true)
      × Gives part addr

  -- The same from the right.
  abbrev pub LeadsFromRight : List Text → IpAddr → Type 0
  LeadsFromRight parts addr =
      (farther : List Text) × (part : Text) × (nearer : List Text) × (parts
        ≡ farther ++ part ∷ nearer)
      × (all is_passed nearer ≡ true)
      × Gives part addr

  abbrev kept : List Text → List Text
  kept parts = retain (λ entry. not (is_empty entry)) (map trim parts)

  Leads-passed :
      (part : Text) (parts : List Text) (addr : IpAddr)
      → is_passed part ≡ true
      → Leads parts addr
      → Leads (part ∷ parts) addr
  Leads-passed part parts addr h (nearer, last, farther, e, k, gives) =
      (part ∷ nearer, last, farther, ap (part ∷◌) e, rw (h, k) refl, gives)

  -- A part that is not blank, and the walk behind it.
  walk-Gives :
      (saw_entry : Bool) (part : Text) (parts : List Text) (addr : IpAddr)
      → is_empty (trim part) ≡ false
      → walk parse_entry trusted_proxies saw_entry (trim part ∷ kept parts) ≡ found addr
      → Gives part addr
        ⊎ ((is_passed part ≡ true)
            × (walk parse_entry trusted_proxies true (kept parts) ≡ found addr))
  unfolding walk
  walk-Gives saw_entry part parts addr full h = elim (header-cases (parse_entry (trim part))) [
    | inl none_found ↦ absurd (ground (arith, h, none_found))
    | inr (first, e) ↦ elim (Bool-cases (is_trusted_proxy first trusted_proxies)) [
      | inl past ↦ inr (rw full (ground (arith, e, past)), ground (arith, h, e, past))
      | inr other ↦
          let same : found first ≡ found addr = ground (arith, h, e, other) in
          inl (full, e ∙ same, subst (λ a. is_trusted_found a trusted_proxies ≡ false) same other)
    ]
  ]

  walk-Leads :
      (saw_entry : Bool) (parts : List Text) (addr : IpAddr)
      → walk parse_entry trusted_proxies saw_entry (kept parts) ≡ found addr
      → Leads parts addr
  unfolding walk
  walk-Leads saw_entry [] addr h = absurd (ground (arith, h))
  walk-Leads saw_entry (part ∷ parts) addr h = elim (Bool-cases (is_empty (trim part))) [
    | inl blank ↦ Leads-passed part parts addr (rw blank refl) (
        walk-Leads saw_entry parts addr (
          subst
            (λ b.
              walk parse_entry trusted_proxies saw_entry
                (if not b then trim part ∷ kept parts else kept parts)
              ≡ found addr)
            blank h))
    | inr full ↦
        elim (walk-Gives saw_entry part parts addr full (
          subst
            (λ b.
              walk parse_entry trusted_proxies saw_entry
                (if not b then trim part ∷ kept parts else kept parts)
              ≡ found addr)
            full h)) [
              | inl gives ↦ ([], part, parts, refl, refl, gives)
              | inr (passed, rest) ↦
                  Leads-passed part parts addr passed (walk-Leads true parts addr rest)
            ]
  ]

  Leads-walk :
      (saw_entry : Bool) (nearer farther : List Text) (part : Text) (addr : IpAddr)
      → all is_passed nearer ≡ true
      → Gives part addr
      → walk parse_entry trusted_proxies saw_entry (kept (nearer ++ part ∷ farther)) ≡ found addr
  unfolding walk
  Leads-walk saw_entry [] farther part addr h (full, e, other) = rw (full, e, other) refl
  Leads-walk saw_entry (hop ∷ nearer) farther part addr h gives =
      elim (Bool-cases (is_empty (trim hop))) [
        | inl blank ↦
            rw blank (Leads-walk saw_entry nearer farther part addr (ground (arith, h)) gives)
        | inr full ↦ rw full (
            trusted_hop-walk saw_entry (trim hop) (kept (nearer ++ part ∷ farther)) addr
              (ground (arith, h, full))
              (Leads-walk true nearer farther part addr (ground (arith, h)) gives))
      ]

  Leads-reverse :
      (parts : List Text) (addr : IpAddr) → Leads (reverse parts) addr ↔ LeadsFromRight parts addr
  Leads-reverse parts addr = (
    (λ (nearer, part, farther, e, k, gives). (
      reverse farther,
      part,
      reverse nearer,
      sym (reverse-reverse parts) ∙ ap reverse e ∙ reverse-around nearer part farther,
      all-reverse is_passed nearer ∙ k,
      gives,
    )),
    (λ (farther, part, nearer, e, k, gives). (
      reverse nearer,
      part,
      reverse farther,
      ap reverse e ∙ reverse-around farther part nearer,
      all-reverse is_passed nearer ∙ k,
      gives,
    )),
  )

walk_iff :
    (parse_entry : Text → HeaderClientIp) (trusted_proxies : List Cidr) (value : Text)
    (addr : IpAddr)
    → (walk parse_entry trusted_proxies false (entries value) ≡ found addr)
      ↔ LeadsFromRight parse_entry trusted_proxies (split b',' value) addr
unfolding entries
walk_iff parse_entry trusted_proxies value addr =
    let parts = split b',' value in
    let (there, back) = Leads-reverse parse_entry trusted_proxies parts addr in
    (
      (λ h. there (walk-Leads parse_entry trusted_proxies false (reverse parts) addr h)),
      (λ h.
          let (nearer, part, farther, e, k, gives) = back h in
          ap (λ xs. walk parse_entry trusted_proxies false (kept parse_entry trusted_proxies xs)) e
          ∙ Leads-walk parse_entry trusted_proxies false nearer farther part addr k gives),
    )

walk_header-append :
    (parse_entry : Text → HeaderClientIp) (trusted_proxies : List Cidr) (front value : Text)
    (addr : IpAddr)
    → walk_header parse_entry trusted_proxies (some value) ≡ found addr
    → walk_header parse_entry trusted_proxies (some (front ++ b',' ∷ value)) ≡ found addr
walk_header-append parse_entry trusted_proxies front value addr h =
    rw (entries-append front value)
      (walk-append parse_entry trusted_proxies false (entries value) (entries front) addr h)

module _ (parse_ip parse_socket_ip : Text → Option IpAddr) where
  -- A header gives an address exactly when, of its parts between commas, some part gives that address, the
  -- address is not a trusted proxy's, and every part to the right of it is blank or gives that of a trusted
  -- proxy. This holds of the Forwarded and of the X-Forwarded-For header.
  pub parse_forwarded_for_iff :
      (value : Text) (trusted_proxies : List Cidr) (addr : IpAddr)
      → ((parse_forwarded_for parse_ip parse_socket_ip (some value) trusted_proxies ≡ found addr)
          ↔ LeadsFromRight
              (parse_forwarded_entry parse_ip parse_socket_ip)
              trusted_proxies
              (split b',' value)
              addr)
        × ((parse_x_forwarded_for parse_ip parse_socket_ip (some value) trusted_proxies
              ≡ found addr)
            ↔ LeadsFromRight
                (λ entry. found_or_invalid (parse_ip_token parse_ip parse_socket_ip entry))
                trusted_proxies
                (split b',' value)
                addr)
  unfolding parse_forwarded_for parse_x_forwarded_for
  parse_forwarded_for_iff value trusted_proxies addr = (
    walk_iff (parse_forwarded_entry parse_ip parse_socket_ip) trusted_proxies value addr,
    walk_iff _ trusted_proxies value addr,
  )

  -- What stands in front of a Forwarded chain that gives an address does not change the answer.
  forwarded-append :
      (peer addr : IpAddr) (trusted_proxies : List Cidr)
      → (front value : Text) (x_forwarded_for x_real_ip : Option Text)
      → parse_forwarded_for parse_ip parse_socket_ip (some value) trusted_proxies ≡ found addr
      → extract_client_ip parse_ip parse_socket_ip peer trusted_proxies
          (some (front ++ b',' ∷ value))
          x_forwarded_for
          x_real_ip
        ≡ (if is_trusted_proxy peer trusted_proxies then addr else peer)
  unfolding parse_forwarded_for extract_client_ip
  forwarded-append peer addr trusted_proxies front value x_forwarded_for x_real_ip h =
      let e =
        walk_header-append (parse_forwarded_entry parse_ip parse_socket_ip) trusted_proxies front
          value addr h in
      elim (Bool-cases (is_trusted_proxy peer trusted_proxies)) [
        | inl trusted ↦ rw (trusted, e) refl
        | inr stranger ↦ rw stranger refl
      ]

  -- What stands in front of an X-Forwarded-For chain that gives an address, where a client can write, does
  -- not change the answer: without a Forwarded header it is the address of the chain if the peer is a
  -- trusted proxy, and else the peer.
  pub extract_client_ip-append :
      (peer addr : IpAddr) (trusted_proxies : List Cidr)
      → (front value : Text) (x_real_ip : Option Text)
      → parse_x_forwarded_for parse_ip parse_socket_ip (some value) trusted_proxies ≡ found addr
      → extract_client_ip parse_ip parse_socket_ip peer trusted_proxies none
          (some (front ++ b',' ∷ value))
          x_real_ip
        ≡ (if is_trusted_proxy peer trusted_proxies then addr else peer)
  unfolding parse_forwarded_for parse_x_forwarded_for extract_client_ip
  extract_client_ip-append peer addr trusted_proxies front value x_real_ip h =
      let e = walk_header-append _ trusted_proxies front value addr h in
      elim (Bool-cases (is_trusted_proxy peer trusted_proxies)) [
        | inl trusted ↦ rw (trusted, e) refl
        | inr stranger ↦ rw stranger refl
      ]
