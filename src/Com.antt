-- ===== src/Com.antt =====
-- The objects of the library and its entry points (src/com/ClassFactory.cpp, src/com/dllmain.cpp:
-- `DllGetClassObject`, `DllCanUnloadNow`; src/core/ProviderCore.cpp: `QueryInterface`, `AddRef`,
-- `Release` of both classes, `GetCredentialAt`).
pub mod Heap
pub mod Counting
pub mod Calls
pub mod Unload
use dot1xcp.Base.{
  suc, ℕ, ◌+◌, ◌-◌, ◌%◌, Bool, true, false, not, Option, none, some, ◌==◌, if◌then◌else◌,
}
use dot1xcp.State.{word}
use dot1xcp.Response.{HResult}

pub data Kind : Type 0 where
  factory provider credential : Kind

pub data Iid : Type 0 where
  unknown class_factory credential_provider provider_credential other : Iid

-- `_ref` of an object; `_cpus` is an argument of the calls in Provider.
pub record Object : Type 0 where
  pub kind : Kind
  pub refs : ℕ

-- The objects at their addresses, the address that the next one gets, and `g_LockCount`.
pub record Server : Type 0 where
  pub heap : ℕ → Option Object
  pub next : ℕ
  pub lock_count : ℕ

abbrev pub put : ℕ → Option Object → (ℕ → Option Object) → ℕ → Option Object
put p object heap q = if p == q then object else heap q

-- What the constructor and the last `Release` of a factory do to `g_LockCount`.
abbrev pub count_up : Kind → ℕ → ℕ
count_up factory n = (n + 1) % word
count_up provider n = n
count_up credential n = n

abbrev pub count_down : Kind → ℕ → ℕ
count_down factory n = (n + (word - 1)) % word
count_down provider n = n
count_down credential n = n

-- `new` with the three constructors
unfoldable pub construct : Kind → Server → Server
construct kind s = record {
  heap = put s.next (some (record { kind = kind; refs = 1 })) s.heap;
  next = suc s.next;
  lock_count = count_up kind s.lock_count;
}

-- `AddRef`; the count that it returns, and that `Release` returns, is left out. At an address without an object, which no caller may use, it does nothing.
unfoldable pub add_ref : ℕ → Server → Server
add_ref p s = elim (s.heap p) [
  | none ↦ s
  | some o ↦ record s { heap = put p (some (record o { refs = (o.refs + 1) % word })) s.heap }
]

-- `delete this`, with what the factory does before
unfoldable pub destroy : ℕ → Kind → Server → Server
destroy p kind s = record s { heap = put p none s.heap; lock_count = count_down kind s.lock_count }

-- `Release`
unfoldable pub release : ℕ → Server → Server
release p s = elim (s.heap p) [
  | none ↦ s
  | some o ↦
      let c = (o.refs + (word - 1)) % word in
      if c == 0
      then destroy p o.kind s
      else record s { heap = put p (some (record o { refs = c })) s.heap }
]

-- The tests of the three `QueryInterface`.
unfoldable pub supports : Kind → Iid → Bool
supports kind unknown = true
supports factory class_factory = true
supports provider credential_provider = true
supports credential provider_credential = true
supports kind iid = false

-- The result and the pointer that is handed out.
abbrev pub Reply : Type 0
Reply = HResult × Option ℕ

-- `QueryInterface` of an object of a kind at an address
unfoldable pub query_interface : Kind → ℕ → Iid → Bool → Server → Reply × Server
query_interface kind p iid has_out s =
    if not has_out
    then ((HResult.e_pointer, none), s)
    else if supports kind iid
    then ((HResult.s_ok, some p), add_ref p s)
    else ((HResult.e_nointerface, none), s)

-- The end of `DllGetClassObject` and of `CreateInstance`: a new object, asked for an interface and
-- released.
unfoldable pub create : Kind → Iid → Bool → Server → Reply × Server
create kind iid allocated s =
    if not allocated
    then ((HResult.e_outofmemory, none), s)
    else (let (reply, s') = query_interface kind s.next iid true (construct kind s) in
        (reply, release s.next s'))

-- `DllGetClassObject`; `matches` is the test of the class identifier.
unfoldable pub get_class_object : Bool → Iid → Bool → Bool → Server → Reply × Server
get_class_object matches iid has_out allocated s =
    if not has_out
    then ((HResult.e_pointer, none), s)
    else if matches
    then create factory iid allocated s
    else ((HResult.class_e_classnotavailable, none), s)

-- `ClassFactory::CreateInstance`
unfoldable pub create_instance : Bool → Iid → Bool → Bool → Server → Reply × Server
create_instance has_outer iid has_out allocated s =
    if has_outer
    then ((HResult.class_e_noaggregation, none), s)
    else if not has_out
    then ((HResult.e_pointer, none), s)
    else create provider iid allocated s

-- `ClassFactory::LockServer`
unfoldable pub lock_server : Bool → Server → Server
lock_server lock s = record s {
  lock_count = if lock then (s.lock_count + 1) % word else (s.lock_count + (word - 1)) % word;
}

-- `GetCredentialAt`
unfoldable pub credential_at : ℕ → Bool → Bool → Server → Reply × Server
credential_at index has_out allocated s =
    if not has_out
    then ((HResult.e_pointer, none), s)
    else if not (index == 0)
    then ((HResult.e_invalidarg, none), s)
    else if not allocated
    then ((HResult.e_outofmemory, none), s)
    else ((HResult.s_ok, some s.next), construct credential s)

-- `DllCanUnloadNow`
unfoldable pub can_unload : Server → HResult
can_unload s = if s.lock_count == 0 then HResult.s_ok else HResult.s_false
