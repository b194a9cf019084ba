-- ===== src/Tests/Com.antt =====
-- The theorems on the library's objects, at a caller that creates a provider and releases the factory.
use dot1xcp.Base.{ℕ, ◌+◌, ◌^◌, ◌<◌, ◌≡◌, refl, ◌↔◌, true, false, none, some, arith}
use dot1xcp.Response.{HResult}
use dot1xcp.Com.{
  provider, unknown, class_factory, Server, construct, add_ref, destroy, release, supports,
  query_interface, create, get_class_object, create_instance, can_unload,
}
use dot1xcp.Com.Heap.{refs_of, weight_of, factories}
use dot1xcp.Com.Calls.{
  asks_class, creates, drops, serve, Ledger, settle, loaded, Served, begin, later,
}
use dot1xcp.Com.Calls.{Served-refs}
use dot1xcp.Com.Unload.{can_unload_iff}

abbrev with_factory : Server × Ledger
with_factory =
    let r = asks_class true class_factory true true in
    let (reply, s) = serve r loaded in (s, settle r reply (record { held = λ p. 0; locks = 0 }))

abbrev with_provider : Server × Ledger
with_provider =
    let r = creates 1 false unknown true true in
    let (reply, s) = serve r with_factory.0 in (s, settle r reply with_factory.1)

abbrev without_factory : Server × Ledger
without_factory =
    let r = drops 1 in
    let (reply, s) = serve r with_provider.0 in (s, settle r reply with_provider.1)

calls : Served without_factory.0 without_factory.1
unfolding serve settle create_instance get_class_object create construct query_interface supports
    add_ref release destroy
calls =
    later (drops 1)
      (later (creates 1 false unknown true true)
        (later (asks_class true class_factory true true) begin tt) (omega arith))
      (omega arith, omega arith)

-- The caller still has the provider.
has_provider :
    (without_factory.0.heap 2 ≡ some (record { kind = provider; refs = 1 }))
    × (without_factory.0.lock_count ≡ 0)
unfolding serve settle create_instance get_class_object create construct query_interface supports
    add_ref release destroy
has_provider = (refl, refl)

Served-refs_example :
    (refs_of (without_factory.0.heap 2) ≡ without_factory.1.held 2)
    × (without_factory.1.held 2 ≡ 0 → without_factory.0.heap 2 ≡ none)
Served-refs_example = Served-refs calls 2

few : factories without_factory.0.next without_factory.0.heap + without_factory.1.locks < 2 ^ 32
unfolding factories serve settle create_instance get_class_object create construct query_interface
    supports add_ref release destroy
few = omega arith

can_unload_iff_example :
    (can_unload without_factory.0 ≡ HResult.s_ok)
    ↔ ((without_factory.1.locks ≡ 0) × ((p : ℕ) → weight_of (without_factory.0.heap p) ≡ 0))
can_unload_iff_example = can_unload_iff calls few
