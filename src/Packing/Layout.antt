-- ===== src/Packing/Layout.antt =====
-- Where the strings of a packed credential stand (src/auth/Serialization.cpp).
use dot1xcp.Base.{
  ℕ, ◌+◌, ◌%◌, ◌^◌, ◌<◌, ◌≡◌, refl, sym, subst, Option, none, some, [], ◌∷◌, ◌++◌, arith,
  if◌then◌else◌, >>=-eq-some, some-eq-some, is_empty, Bytes, codes,
}
use dot1xcp.Packing.{
  console_logon_id, local_machine_name, not_empty, Scenario, logon, unlock, MessageType, Packed,
  Host, bytes_with_null, fill, total, pack_structure, pack_scenario, pack_msv, pack_kerb, is_local,
  msv_logon, msv_unlock, kerb_logon, kerb_unlock,
}

-- A string whose length in bytes, with the zero, is a USHORT.
abbrev pub IsShort : Bytes → Type 0
IsShort s = bytes_with_null s < 2 ^ 16

-- What the packing of three strings comes to: the strings, in their order, without gaps behind the
-- structure, each with its lengths.
pub record Laid (base : ℕ) (domain user password : Bytes) (p : Packed) : Type 0 where
  pub chars_are : p.blob.chars ≡ domain ++ (0 ∷ (user ++ (0 ∷ (password ++ (0 ∷ [])))))
  pub domain_is : p.blob.domain ≡ fill (base + p.blob.header) domain
  pub user_is : p.blob.user ≡ fill (base + p.blob.header + bytes_with_null domain) user
  pub password_is :
      p.blob.password
      ≡ fill (base + p.blob.header + bytes_with_null domain + bytes_with_null user) password
  pub size_is : p.size ≡ total p.blob.header domain user password % 2 ^ 32

pub pack_structure-Laid :
    (host : Host) (base : ℕ → ℕ) (header : ℕ) (message : MessageType) (id : Option ℕ) (pkg : ℕ)
    (domain user password : Bytes) {p : Packed}
    → pack_structure host base header message id pkg domain user password ≡ some p
    → Laid (base p.blob.address) domain user password p
unfolding pack_structure
pack_structure-Laid host base header message id pkg domain user password h =
    let (address, e, is) = >>=-eq-some (host.allocate (total header domain user password)) _ h in
    subst (λ q. Laid (base q.blob.address) domain user password q) (some-eq-some is)
      (record {
        chars_are = refl;
        domain_is = refl;
        user_is = refl;
        password_is = refl;
        size_is = refl;
      })

pub pack_scenario-Laid :
    (host : Host) (base : ℕ → ℕ) (on_logon on_unlock : MessageType) (scenario : Scenario) (pkg : ℕ)
    (domain user password : Bytes) {p : Packed}
    → pack_scenario host base on_logon on_unlock scenario pkg domain user password ≡ some p
    → Laid (base p.blob.address) domain user password p
unfolding pack_scenario
pack_scenario-Laid host base on_logon on_unlock logon pkg domain user password h =
    pack_structure-Laid host base host.logon_size on_logon none pkg domain user password h
pack_scenario-Laid host base on_logon on_unlock unlock pkg domain user password h =
    let (id, e, h') = >>=-eq-some (console_logon_id host) _ h in
    pack_structure-Laid host base host.unlock_size on_unlock (some id) pkg domain user password h'

not_empty-eq-some : (s : Bytes) {t : Bytes} → not_empty s ≡ some t → s ≡ t
not_empty-eq-some s h = ground arith

pub pack_msv-Laid :
    (host : Host) (domain user password : Bytes) (scenario : Scenario) {p : Packed}
    → pack_msv host domain user password scenario ≡ some p
    → Laid 0 (if is_empty domain then codes "." else domain) user password p
unfolding pack_msv
pack_msv-Laid host domain user password scenario {p} h =
    let (name, n, h1) = >>=-eq-some (not_empty user) _ h in
    let (pkg, m, h2) = >>=-eq-some host.msv _ h1 in
    let domain' = if is_empty domain then codes "." else domain in
    subst (λ u. Laid 0 domain' u password p) (sym (not_empty-eq-some user n))
      (pack_scenario-Laid host (λ address. 0) msv_logon msv_unlock scenario pkg domain' name
        password h2)

pub pack_kerb-Laid :
    (host : Host) (domain user password : Bytes) (scenario : Scenario) {p : Packed}
    → pack_kerb host domain user password scenario ≡ some p
    → Laid p.blob.address
        (if is_local domain then local_machine_name host else domain)
        user
        password
        p
unfolding pack_kerb
pack_kerb-Laid host domain user password scenario {p} h =
    let (name, n, h1) = >>=-eq-some (not_empty user) _ h in
    let (pkg, m, h2) = >>=-eq-some host.negotiate _ h1 in
    let domain' = if is_local domain then local_machine_name host else domain in
    subst (λ u. Laid p.blob.address domain' u password p) (sym (not_empty-eq-some user n))
      (pack_scenario-Laid host (λ address. address) kerb_logon kerb_unlock scenario pkg domain' name
        password h2)
