-- ===== src/Packing/ReadBack.antt =====
-- Reading a packed credential as the receiver does, with pointers that are offsets in the blob
-- (src/auth/Serialization.cpp).
use dot1xcp.Base.{
  ℕ, zero, suc, ◌+◌, ◌-◌, ◌*◌, ◌/◌, ◌^◌, ◌≤◌, ◌<◌, ◌≡◌, refl, ap, ◌∙◌, some, List, [], ◌∷◌, ◌++◌,
  arith, if◌then◌else◌, length, is_empty, Bytes, codes,
}
use dot1xcp.Packing.{Scenario, UnicodeString, Blob, Packed, Host, fill, ushort, pack_msv}
use dot1xcp.Packing.Layout.{IsShort, Laid, pack_msv-Laid}

abbrev pub take {ℓ} : {A : Type ℓ} → ℕ → List A → List A
take zero xs = []
take (suc n) [] = []
take (suc n) (x ∷ xs) = x ∷ take n xs

abbrev pub drop {ℓ} : {A : Type ℓ} → ℕ → List A → List A
drop zero xs = xs
drop (suc n) [] = []
drop (suc n) (x ∷ xs) = drop n xs

-- The string that the pointer and the length of `us` delimit in the blob.
abbrev pub read_string : Blob → UnicodeString → Bytes
read_string blob us = take (us.length / 2) (drop ((us.buffer - blob.header) / 2) blob.chars)

take-append {ℓ} : {A : Type ℓ} (xs ys : List A) → take (length xs) (xs ++ ys) ≡ xs
take-append [] ys = refl
take-append (x ∷ xs) ys = ap (◌∷◌ x) (take-append xs ys)

-- To drop what a list starts with and one element more.
drop-append {ℓ} :
    {A : Type ℓ} (xs : List A) (y : A) (ys : List A) (n : ℕ)
    → drop (length xs + 1 + n) (xs ++ (y ∷ ys)) ≡ drop n ys
drop-append [] y ys n = let e : 0 + 1 + n ≡ suc n = omega arith in ap (λ k. drop k (y ∷ ys)) e
drop-append (x ∷ xs) y ys n =
    let e : suc (length xs) + 1 + n ≡ suc (length xs + 1 + n) = omega arith in
    ap (λ k. drop k (x ∷ (xs ++ (y ∷ ys)))) e ∙ drop-append xs y ys n

-- The lengths of a short string are not cut.
half_ushort : (n : ℕ) → (n + 1) * 2 < 2 ^ 16 → ushort (n * 2) / 2 ≡ n
half_ushort n h = omega arith

-- A pointer that is an offset leads to the unit that it is the offset of.
half_offset : (header n : ℕ) → (header + n * 2 - header) / 2 ≡ n
half_offset header n = omega arith

read-fill :
    (blob : Blob) (s rest : Bytes) (n : ℕ)
    → IsShort s
    → drop n blob.chars ≡ s ++ rest
    → read_string blob (fill (blob.header + n * 2) s) ≡ s
read-fill blob s rest n short at =
    ap (λ k. take k (drop ((blob.header + n * 2 - blob.header) / 2) blob.chars))
      (half_ushort (length s) short)
    ∙ ap (λ k. take (length s) (drop k blob.chars)) (half_offset blob.header n)
    ∙ ap (take (length s)) at
    ∙ take-append s rest

-- Reading at an offset that is written otherwise.
read-fill_at :
    (blob : Blob) (s rest : Bytes) (n buffer : ℕ)
    → IsShort s
    → drop n blob.chars ≡ s ++ rest
    → buffer ≡ blob.header + n * 2
    → read_string blob (fill buffer s) ≡ s
read-fill_at blob s rest n buffer short at e =
    ap (λ b. read_string blob (fill b s)) e ∙ read-fill blob s rest n short at

pub Laid-read_string :
    (domain user password : Bytes) (p : Packed)
    → IsShort domain × IsShort user × IsShort password
    → Laid 0 domain user password p
    → (read_string p.blob p.blob.domain ≡ domain)
      × (read_string p.blob p.blob.user ≡ user)
      × (read_string p.blob p.blob.password ≡ password)
Laid-read_string domain user password p (sd, su, sp) l =
    let behind_user = password ++ (0 ∷ []) in
    let behind_domain = user ++ (0 ∷ behind_user) in
    let to_user = drop-append domain 0 behind_domain in
    (
      ap (read_string p.blob) l.domain_is
          ∙ read-fill_at p.blob domain (0 ∷ behind_domain) 0 _ sd l.chars_are (omega arith),
      ap (read_string p.blob) l.user_is
          ∙ read-fill_at p.blob user (0 ∷ behind_user) (length domain + 1 + 0) _ su
              (ap (drop (length domain + 1 + 0)) l.chars_are ∙ to_user 0) (omega arith),
      ap (read_string p.blob) l.password_is
          ∙ read-fill_at p.blob password (0 ∷ []) (length domain + 1 + (length user + 1 + 0)) _ sp
              (ap (drop (length domain + 1 + (length user + 1 + 0))) l.chars_are
                ∙ to_user (length user + 1 + 0)
                ∙ drop-append user 0 behind_user 0)
              (omega arith),
    )

local-IsShort :
    (domain : Bytes) → IsShort domain → IsShort (if is_empty domain then codes "." else domain)
local-IsShort [] h = omega arith
local-IsShort (c ∷ s) h = h

-- A credential for a local account that is packed reads back as what went in, where the strings are
-- short enough for a USHORT length: the user, the password, and the domain, `"."` for an empty one.
pub pack_msv-read_string :
    (host : Host) (domain user password : Bytes) (scenario : Scenario) (p : Packed)
    → IsShort domain × IsShort user × IsShort password
    → pack_msv host domain user password scenario ≡ some p
    → (read_string p.blob p.blob.domain ≡ (if is_empty domain then codes "." else domain))
      × (read_string p.blob p.blob.user ≡ user)
      × (read_string p.blob p.blob.password ≡ password)
pack_msv-read_string host domain user password scenario p (sd, su, sp) h =
    Laid-read_string _ user password p (local-IsShort domain sd, su, sp)
      (pack_msv-Laid host domain user password scenario h)

Laid-bounds :
    (domain user password : Bytes) (p : Packed)
    → IsShort domain × IsShort user × IsShort password
    → p.blob.header < 2 ^ 16
    → Laid 0 domain user password p
    → let b = p.blob in
      (b.header ≤ b.domain.buffer)
      × (b.domain.buffer + b.domain.maximum_length ≤ b.user.buffer)
      × (b.user.buffer + b.user.maximum_length ≤ b.password.buffer)
      × (b.password.buffer + b.password.maximum_length ≡ p.size)
Laid-bounds domain user password p (sd, su, sp) small l =
    let d = ap (λ u. u.buffer) l.domain_is in
    let dm = ap (λ u. u.maximum_length) l.domain_is in
    let u = ap (λ u. u.buffer) l.user_is in
    let um = ap (λ u. u.maximum_length) l.user_is in
    let w = ap (λ u. u.buffer) l.password_is in
    let wm = ap (λ u. u.maximum_length) l.password_is in
    let n = l.size_is in
    (
      omega (arith, d),
      omega (arith, d, dm, u, sd),
      omega (arith, u, um, w, su),
      omega (arith, w, wm, n, sd, su, sp, small),
    )

-- The strings of a packed credential stand behind the structure, do not overlap, and end within the
-- size that is passed on, where they are short and the structure is below 64 KB.
pub pack_msv-bounds :
    (host : Host) (domain user password : Bytes) (scenario : Scenario) (p : Packed)
    → IsShort domain × IsShort user × IsShort password
    → p.blob.header < 2 ^ 16
    → pack_msv host domain user password scenario ≡ some p
    → let b = p.blob in
      (b.header ≤ b.domain.buffer)
      × (b.domain.buffer + b.domain.maximum_length ≤ b.user.buffer)
      × (b.user.buffer + b.user.maximum_length ≤ b.password.buffer)
      × (b.password.buffer + b.password.maximum_length ≡ p.size)
pack_msv-bounds host domain user password scenario p (sd, su, sp) small h =
    Laid-bounds _ user password p (local-IsShort domain sd, su, sp) small
      (pack_msv-Laid host domain user password scenario h)
