-- ===== src/Command/Delivery.antt =====
-- The command handler over the server: `Server.SendToDevice` as its SessionLookup.
use mathlib.Core.Path.{subst}
use zx909_gw.Prelude.{
  sym, ℕ, ◌≡◌, ap, ◌∙◌, inl, inr, ◌⊎◌, none, some, false, Option-cases, if◌then◌else◌,
}
use zx909_gw.Bytes.{Bytes}
use zx909_gw.Platform.{Platform}
use zx909_gw.Server.State.{Server, World, Session, write, emit, deref, find_session}
use zx909_gw.Server.Handle.{send_to_device}
use zx909_gw.Command.{Json, SessionLookup, RpcError, send_failed, execute_rpc}
use zx909_gw.Command.Packets.{Order, IsAccepted, encoded}
use zx909_gw.Command.Orders.{execute_rpc-encoded}

module _ (P : Platform) where
  abbrev pub server_lookup : World P → SessionLookup
  server_lookup w = record { State = Server P; send = send_to_device P w }

  -- The order that was written on the connection of the IMEI's current session.
  pub record IsWritten (imei : Bytes) (s t : Server P) : Type 0 where
    pub pointer : ℕ
    pub session : Session P
    pub is_current : find_session imei s.sessions ≡ some pointer
    pub is_live : deref P pointer s.heap ≡ some session
    pub order : Order
    pub accepted : IsAccepted order
    pub written : t ≡ emit P (write session.conn (encoded order)) s

  -- Sending either fails and leaves the server alone, or writes to the session of the IMEI.
  send_to_device-IsWritten :
      (w : World P) (imei : Bytes) (o : Order) (s : Server P)
      → IsAccepted o
      → (((send_to_device P w imei (encoded o) s).0 ≡ false)
          × ((send_to_device P w imei (encoded o) s).1 ≡ s))
        ⊎ IsWritten imei s (send_to_device P w imei (encoded o) s).1
  unfolding send_to_device
  send_to_device-IsWritten w imei o s a = elim (Option-cases (find_session imei s.sessions)) [
    | inl offline ↦ inl (rw (offline, send_to_device), rw (offline, send_to_device))
    | inr (p, e) ↦ elim (Option-cases (deref P p s.heap)) [
      | inl gone ↦ inl (rw (e, gone, send_to_device), rw (e, gone, send_to_device))
      | inr (x, d) ↦ inr (record {
        pointer = p;
        session = x;
        is_current = e;
        is_live = d;
        order = o;
        accepted = a;
        written = rw (e, d, send_to_device);
      })
    ]
  ]

  -- An RPC over the server, with any method and parameters, either ends with an error and leaves the
  -- server alone, or writes exactly one packet, the encoding of an order that the tracker accepts, on
  -- the connection of the current session of the IMEI, and changes nothing else.
  pub execute_rpc-IsWritten :
      (J : Json) (w : World P) (imei method params : Bytes) (s : Server P)
      → (let r = execute_rpc J (server_lookup w) imei method params s in
          ((e : RpcError) × (r ≡ (some e, s))) ⊎ IsWritten imei s r.1)
  execute_rpc-IsWritten J w imei method params s =
      elim (execute_rpc-encoded J (server_lookup w) imei method params s) [
        | inl (none_meant, (e, own, x)) ↦ inl (e, x)
        | inr (o, meant, accepted, x) ↦ elim (send_to_device-IsWritten w imei o s accepted) [
          | inl (failed, same) ↦
              inl (send_failed, x ∙ (λ i. (if failed i then none else some send_failed, same i)))
          | inr written ↦ inr (subst (IsWritten imei s) (sym (ap (λ r. r.1) x)) written)
        ]
      ]
