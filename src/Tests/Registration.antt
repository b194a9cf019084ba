-- ===== src/Tests/Registration.antt =====
-- The theorem on the registration at a registry that refuses one key.
use dot1xcp.Base.{◌≡◌, ◌↔◌, Bool, true, false, some, Bytes, codes, All}
use dot1xcp.Response.{HResult}
use dot1xcp.Registration.{
  classes_root, local_machine, Key, server_key, provider_key, register_server,
}
use dot1xcp.Registration.Undone.{IsUndone, register_server-IsUndone}

abbrev opens : Key → Bool
opens (classes_root, path) = true
opens (local_machine, path) = false

register_server-IsUndone_example :
    let (r, calls) = register_server (some (codes "C:\\cp.dll")) opens in
    ((r ≡ HResult.s_ok) ↔ (
      (text : Bytes) × (some (codes "C:\\cp.dll") ≡ some text)
      × (opens server_key ≡ true)
      × (opens provider_key ≡ true)))
    × All (IsUndone calls) calls
register_server-IsUndone_example = register_server-IsUndone (some (codes "C:\\cp.dll")) opens
