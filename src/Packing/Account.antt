-- ===== src/Packing/Account.antt =====
-- Which account a credential is packed for (src/auth/Serialization.cpp).
use dot1xcp.Base.{
  ℕ, ◌+◌, ◌≡◌, refl, sym, ap, subst, ◌∙◌, ◌≢◌, true, false, Option, none, some, [], ◌∷◌,
  if◌then◌else◌, >>=-eq-some, some-eq-some, is_empty, Bytes, codes,
}
use dot1xcp.Packing.{
  console_logon_id, local_machine_name, Scenario, logon, unlock, MessageType, Packed, Host,
  bytes_with_null, total, pack_structure, pack_scenario, pack_msv, pack_kerb, pack_auto, is_local,
  not_empty, msv_logon, msv_unlock,
}
use dot1xcp.Packing.Layout.{Laid, pack_kerb-Laid}

-- The account, the package and the message of a credential.
abbrev pub IsFor : Host → Scenario → ℕ → Packed → Type 0
IsFor host logon pkg p =
    (p.auth_pkg ≡ pkg) × (p.blob.message ≡ msv_logon) × (p.blob.logon_id ≡ none)
IsFor host unlock pkg p =
    (p.auth_pkg ≡ pkg)
    × (p.blob.message ≡ msv_unlock)
    × (p.blob.logon_id ≡ console_logon_id host)
    × (p.blob.logon_id ≢ none)

pack_structure-is :
    (host : Host) (base : ℕ → ℕ) (header : ℕ) (message : MessageType) (id : Option ℕ) (pkg : ℕ)
    (domain user password : Bytes) {p : Packed}
    → pack_structure host base header message id pkg domain user password ≡ some p
    → (p.auth_pkg ≡ pkg) × (p.blob.message ≡ message) × (p.blob.logon_id ≡ id)
unfolding pack_structure
pack_structure-is host base header message id pkg domain user password h =
    let (address, e, is) = >>=-eq-some (host.allocate (total header domain user password)) _ h in
    subst (λ q. (q.auth_pkg ≡ pkg) × (q.blob.message ≡ message) × (q.blob.logon_id ≡ id))
      (some-eq-some is) (refl, refl, refl)

scenario-IsFor :
    (host : Host) (scenario : Scenario) (pkg : ℕ) (domain user password : Bytes) {p : Packed}
    → pack_scenario host (λ address. 0) msv_logon msv_unlock scenario pkg domain user password
      ≡ some p
    → IsFor host scenario pkg p
unfolding pack_scenario
scenario-IsFor host logon pkg domain user password h =
    pack_structure-is host (λ a. 0) host.logon_size msv_logon none pkg domain user password h
scenario-IsFor host unlock pkg domain user password h =
    let (id, e, h') = >>=-eq-some (console_logon_id host) _ h in
    let (a, b, c) =
      pack_structure-is host (λ a. 0) host.unlock_size msv_unlock (some id) pkg domain user password
        h' in
    (a, b, c ∙ sym e, λ n. cc (sym c ∙ n))

empty_user : (s : Bytes) {t : Bytes} → s ≡ [] → not_empty s ≡ some t → ⊥
empty_user [] e h = cc
empty_user (c ∷ s) e h = cc

-- A credential for the domain "." or for none is packed for the local account database, whatever the
-- Kerberos package is: the user is not empty, the package is the resolved MSV1_0 one, the message is
-- the one of the scenario, and only an unlocking has a logon identifier, the console user's.
pub pack_auto-local :
    (host : Host) (domain user password : Bytes) (scenario : Scenario) (p : Packed)
    → is_local domain ≡ true
    → pack_auto host domain user password scenario ≡ some p
    → (user ≢ []) × ((pkg : ℕ) × (host.msv ≡ some pkg) × IsFor host scenario pkg p)
unfolding pack_auto pack_msv
pack_auto-local host domain user password scenario p is_l h =
    let h0 = rw is_l at h in
    let (name, n, h1) = >>=-eq-some (not_empty user) _ h0 in
    let (pkg, m, h2) = >>=-eq-some host.msv _ h1 in
    (
      λ e. empty_user user e n,
      (
        pkg,
        m,
        scenario-IsFor host scenario pkg (if is_empty domain then codes "." else domain) name
            password h2,
      ),
    )

-- The pointers of a credential that is packed for a domain account are addresses in the memory of this
-- process: each lies `address` behind the offset of its string in the blob.
pub pack_kerb-pointers :
    (host : Host) (domain user password : Bytes) (scenario : Scenario) (p : Packed)
    → is_local domain ≡ false
    → pack_kerb host domain user password scenario ≡ some p
    → let b = p.blob in
      (b.domain.buffer ≡ b.address + b.header)
      × (b.user.buffer ≡ b.address + b.header + bytes_with_null domain)
      × (b.password.buffer ≡ b.address + b.header + bytes_with_null domain + bytes_with_null user)
pack_kerb-pointers host domain user password scenario p remote h =
    let l =
      subst (λ d. Laid p.blob.address d user password p)
        (ap (λ b. if b then local_machine_name host else domain) remote)
        (pack_kerb-Laid host domain user password scenario h) in
    (ap (λ u. u.buffer) l.domain_is, ap (λ u. u.buffer) l.user_is, ap (λ u. u.buffer) l.password_is)
