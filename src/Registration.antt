-- ===== src/Registration.antt =====
-- Registering the library (src/com/dllmain.cpp: `DllRegisterServer`, `DllUnregisterServer`), as the calls
-- of the registry that it makes.
pub mod Undone
use dot1xcp.Base.{Bool, not, Option, none, some, List, [], ◌∷◌, ◌++◌, if◌then◌else◌, Bytes, codes}
use dot1xcp.Response.{HResult}

pub data Root : Type 0 where
  classes_root local_machine : Root

abbrev pub Key : Type 0
Key = Root × Bytes

-- `RegCreateKeyExW`, which also makes the keys above; `RegSetValueExW` of a name and a text, the default
-- value having none; `RegCloseKey`; `RegDeleteKeyW`.
pub data RegCall : Type 0 where
  opened : Key → RegCall
  set : Key → Option Bytes → Bytes → RegCall
  closed : Key → RegCall
  deleted : Key → RegCall

abbrev pub class_path : Bytes
class_path = codes "CLSID\\{7C5B9DC9-3FAE-4E3C-8B1F-2B4B530A1D77}"

abbrev pub class_key : Key
class_key = (classes_root, class_path)

-- `clsidKey`
abbrev pub server_key : Key
server_key = (classes_root, class_path ++ codes "\\InprocServer32")

abbrev pub provider_key : Key
provider_key = (
  local_machine,
  codes
      "SOFTWARE\\Microsoft\\Windows\\CurrentVersion\\Authentication\\Credential Providers\\{7C5B9DC9-3FAE-4E3C-8B1F-2B4B530A1D77}",
)

-- What is written into the two keys, once each is open.
abbrev pub server_values : Bytes → List RegCall
server_values path =
    opened server_key
    ∷ set server_key none path
    ∷ set server_key (some (codes "ThreadingModel")) (codes "Apartment")
    ∷ closed server_key
    ∷ []

abbrev pub provider_values : List RegCall
provider_values =
    opened provider_key ∷ set provider_key none (codes "Dot1xCP") ∷ closed provider_key ∷ []

-- `DllRegisterServer`, with the path of the library, none on a failure, and which keys can be opened;
-- an attempt that fails leaves no trace.
unfoldable pub register_server : Option Bytes → (Key → Bool) → HResult × List RegCall
register_server none opens = (HResult.selfreg_e_class, [])
register_server (some path) opens =
    if not (opens server_key)
    then (HResult.selfreg_e_class, [])
    else if not (opens provider_key)
    then (HResult.selfreg_e_class, server_values path)
    else (HResult.s_ok, server_values path ++ provider_values)

-- `DllUnregisterServer`
unfoldable pub unregister_server : HResult × List RegCall
unregister_server =
    (HResult.s_ok, deleted server_key ∷ deleted class_key ∷ deleted provider_key ∷ [])
