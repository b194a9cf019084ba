-- ===== src/Registration/Undone.antt =====
-- Registering and unregistering the library (src/com/dllmain.cpp).
use mathlib.Core.List.{Mem, mem-cons_self, mem-cons_of_mem}
use dot1xcp.Base.{
  ◌≡◌, refl, ◌↔◌, inl, inr, Bool, true, Option, none, some, List, ◌∷◌, ◌++◌, Bool-cases, Bytes, All,
}
use dot1xcp.Response.{HResult}
use dot1xcp.Registration.{
  Key, RegCall, opened, closed, deleted, server_key, provider_key, server_values, provider_values,
  register_server, unregister_server,
}

-- A key that is opened is closed, and unregistering asks for its deletion.
abbrev pub IsUndone : List RegCall → RegCall → Type 0
IsUndone calls (opened k) = Mem (closed k) calls × Mem (deleted k) unregister_server.1
IsUndone calls call = Unit

behind : {y a : RegCall} {l : List RegCall} → Mem a l → Mem a (y ∷ l)
behind {y} h = mem-cons_of_mem y h

unregisters-server : Mem (deleted server_key) unregister_server.1
unfolding unregister_server
unregisters-server = mem-cons_self

unregisters-provider : Mem (deleted provider_key) unregister_server.1
unfolding unregister_server
unregisters-provider = behind (behind mem-cons_self)

server_values-IsUndone : (path : Bytes) → All (IsUndone (server_values path)) (server_values path)
server_values-IsUndone path =
    ((behind (behind (behind mem-cons_self)), unregisters-server), (tt, (tt, (tt, tt))))

values-IsUndone :
    (path : Bytes) → let calls = server_values path ++ provider_values in All (IsUndone calls) calls
values-IsUndone path =
    let closes_provider : Mem (closed provider_key) (server_values path ++ provider_values) =
      behind (behind (behind (behind (behind (behind mem-cons_self))))) in
    (
      (behind (behind (behind mem-cons_self)), unregisters-server),
      (tt, (tt, (tt, ((closes_provider, unregisters-provider), (tt, (tt, tt)))))),
    )

-- `DllRegisterServer` succeeds exactly when it has its path and can open both keys. Every key that it
-- opened, it also closes, and `DllUnregisterServer` asks for its deletion; also behind a failure.
pub register_server-IsUndone :
    (path : Option Bytes) (opens : Key → Bool)
    → let (r, calls) = register_server path opens in
      ((r ≡ HResult.s_ok) ↔ (
        (text : Bytes) × (path ≡ some text)
        × (opens server_key ≡ true)
        × (opens provider_key ≡ true)))
      × All (IsUndone calls) calls
unfolding register_server
register_server-IsUndone none opens = ((λ e. cc e, λ h. cc (h.1)), tt)
register_server-IsUndone (some path) opens = elim (Bool-cases (opens server_key)) [
  | inr e ↦ rw e ((λ h. cc h, λ h. cc (h.2)), tt)
  | inl e ↦ elim (Bool-cases (opens provider_key)) [
    | inr e' ↦ rw (e, e') ((λ h. cc h, λ h. cc (h.3)), server_values-IsUndone path)
    | inl e' ↦ rw (e, e') ((λ h. (path, refl, refl, refl), λ h. refl), values-IsUndone path)
  ]
]
