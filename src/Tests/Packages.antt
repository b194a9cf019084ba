-- ===== src/Tests/Packages.antt =====
-- The theorems on the cache of package identifiers at concrete inputs.
use dot1xcp.Base.{◌≡◌, refl, none, some, []}
use dot1xcp.Auth.{Lsa, Packages, resolve_pkg, resolve_cached, resolve_negotiate, resolve_msv}
use dot1xcp.Auth.Cache.{resolve_msv-twice}

abbrev lsa : Lsa
lsa = record { connects = some 8; lookup = λ name. some 2 }

-- An LSA that is gone.
abbrev gone : Lsa
gone = record { connects = none; lookup = λ name. none }

abbrev nothing : Packages
nothing = record { kerberos = 0; msv = 0 }

resolve_msv-twice_example :
    let (k, between, u) = resolve_negotiate lsa (resolve_msv lsa nothing []).1 [] in
    resolve_msv gone between u ≡ (some 2, between, u)
unfolding resolve_msv resolve_cached resolve_pkg
resolve_msv-twice_example = resolve_msv-twice lsa lsa gone nothing [] [] 2 refl refl refl
