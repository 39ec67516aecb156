-- ===== src/AuthDevice/Material.antt =====
-- The bytes that are hashed, against the material they stand for.
use world_infra.Prelude.{
  ℕ, ◌%◌, ◌≡◌, refl, sym, ap, ◌∙◌, ◌<◌, Option, none, some, List, [], ◌++◌, append-nil, arith,
}
use world_infra.Text.{Text, codes, byte_length}
use world_infra.Text.Utf8.{as_bytes, as_bytes-injective, cons_injective}
use world_infra.AuthDevice.{
  DeviceHashMaterial, device_id_material, ip_user_agent, to_be_bytes, len_prefixed, labelled,
  hash_material,
}

-- A text whose length fits the prefix.
abbrev pub IsShort : Text → Type 0
IsShort value = byte_length value < 4294967296

abbrev pub AllShort : Option Text → Type 0
AllShort none = Unit
AllShort (some value) = IsShort value

abbrev pub IsShortMaterial : DeviceHashMaterial → Type 0
IsShortMaterial (device_id_material device_id) = IsShort device_id
IsShortMaterial (ip_user_agent ip user_agent) = AllShort ip × AllShort user_agent

to_be_bytes-injective :
    (m n : ℕ) (u v : List ℕ)
    → m < 4294967296
    → n < 4294967296
    → to_be_bytes (m % 4294967296) ++ u ≡ to_be_bytes (n % 4294967296) ++ v
    → (m ≡ n) × (u ≡ v)
to_be_bytes-injective m n u v h k e =
    let (a, e1) = cons_injective e in
    let (b, e2) = cons_injective e1 in
    let (c, e3) = cons_injective e2 in
    let (d, e4) = cons_injective e3 in (omega (arith, h, k, a, b, c, d), e4)

len_prefixed-injective :
    (s t : Text) (u v : List ℕ)
    → IsShort s
    → IsShort t
    → len_prefixed s ++ u ≡ len_prefixed t ++ v
    → (s ≡ t) × (u ≡ v)
unfolding len_prefixed
len_prefixed-injective s t u v h k e =
    let (lengths, rest) =
      to_be_bytes-injective (byte_length s) (byte_length t) (as_bytes s ++ u) (as_bytes t ++ v) h k
        e in
    as_bytes-injective s t u v lengths rest

len_prefixed_same : (s t : Text) → IsShort s → IsShort t → len_prefixed s ≡ len_prefixed t → s ≡ t
len_prefixed_same s t h k e =
    (len_prefixed-injective s t [] [] h k
      (append-nil (len_prefixed s) ∙ e ∙ sym (append-nil (len_prefixed t)))).0

ua_injective :
    (b d : Option Text)
    → AllShort b
    → AllShort d
    → labelled (codes "ua:") b ≡ labelled (codes "ua:") d
    → b ≡ d
unfolding as_bytes
ua_injective none none h k e = refl
ua_injective none (some t) h k e = absurd cc
ua_injective (some s) none h k e = absurd cc
ua_injective (some s) (some t) h k e =
    let (_, e1) = cons_injective e in
    let (_, e2) = cons_injective e1 in
    let (_, e3) = cons_injective e2 in ap some (len_prefixed_same s t h k e3)

ip_injective :
    (a c b d : Option Text)
    → AllShort a
    → AllShort c
    → labelled (codes "ip:") a ++ labelled (codes "ua:") b
      ≡ labelled (codes "ip:") c ++ labelled (codes "ua:") d
    → (a ≡ c) × (labelled (codes "ua:") b ≡ labelled (codes "ua:") d)
unfolding as_bytes
ip_injective none none b d h k e = (refl, e)
ip_injective none (some t) none d h k e = absurd cc
ip_injective none (some t) (some b) d h k e =
    let (first, _) = cons_injective e in absurd (omega (arith, first))
ip_injective (some s) none b none h k e = absurd cc
ip_injective (some s) none b (some d) h k e =
    let (first, _) = cons_injective e in absurd (omega (arith, first))
ip_injective (some s) (some t) b d h k e =
    let (_, e1) = cons_injective e in
    let (_, e2) = cons_injective e1 in
    let (_, e3) = cons_injective e2 in
    let (same, rest) =
      len_prefixed-injective s t (labelled (codes "ua:") b) (labelled (codes "ua:") d) h k e3 in
    (ap some same, rest)

cancel : (s : Text) (u v : List ℕ) → as_bytes s ++ u ≡ as_bytes s ++ v → u ≡ v
cancel s u v e = (as_bytes-injective s s u v refl e).1

behind :
    (s : Text) (u v : List ℕ)
    → as_bytes s ++ (as_bytes (codes ":") ++ u) ≡ as_bytes s ++ (as_bytes (codes ":") ++ v)
    → u ≡ v
behind s u v e = cancel (codes ":") u v (cancel s _ _ e)

tags_differ {ℓ} :
    {A : Type ℓ} (u v : List ℕ)
    → as_bytes (codes "device-id:") ++ u ≡ as_bytes (codes "ip-ua:") ++ v
    → A
unfolding as_bytes
tags_differ u v e = let (first, _) = cons_injective e in absurd (omega (arith, first))

both : (a b c d : Option Text) → a ≡ c → b ≡ d → ip_user_agent a b ≡ ip_user_agent c d
both a b c d e f = cc

-- With one domain separator, two materials whose texts are shorter than 4 GiB give the same bytes to the
-- digest only when they are the same material.
pub hash_material-injective :
    (m n : DeviceHashMaterial) (domain_separator : Text)
    → IsShortMaterial m
    → IsShortMaterial n
    → hash_material m domain_separator ≡ hash_material n domain_separator
    → m ≡ n
unfolding hash_material
hash_material-injective (device_id_material a) (device_id_material b) domain_separator h k e =
    let tags = behind domain_separator _ _ e in
    ap device_id_material (len_prefixed_same a b h k (cancel (codes "device-id:") _ _ tags))
hash_material-injective (device_id_material a) (ip_user_agent b c) domain_separator h k e =
    tags_differ _ _ (behind domain_separator _ _ e)
hash_material-injective (ip_user_agent a b) (device_id_material c) domain_separator h k e =
    tags_differ _ _ (sym (behind domain_separator _ _ e))
hash_material-injective (ip_user_agent a b) (ip_user_agent c d) domain_separator h k e =
    let (ha, hb) = h in
    let (kc, kd) = k in
    let tags = behind domain_separator _ _ e in
    let (ips, rest) = ip_injective a c b d ha kc (cancel (codes "ip-ua:") _ _ tags) in
    both a b c d ips (ua_injective b d hb kd rest)
