-- ===== src/Command/Orders.antt =====
-- That the command handler sends exactly the order that an RPC means.
use zx909_gw.Prelude.{
  true, ◌≡◌, ◌≢◌, refl, ap, ◌⊎◌, inl, inr, false, Option, none, some, arith, Bool-cases,
  if◌then◌else◌,
}
use zx909_gw.Prelude.Int.{ℤ, pos, negsuc}
use zx909_gw.Bytes.{Bytes}
use zx909_gw.Protocol.Commands.{
  low_word, build_restart, build_shutdown, build_locate, build_upload_interval,
  build_status_interval,
}
use zx909_gw.Server.State.{same_string}
use zx909_gw.Server.Sessions.{same_string_iff}
use zx909_gw.Command.{
  Json, SessionLookup, RpcError, invalid_params, out_of_range, unknown_method, send_failed,
  is_outside, reboot, shutdown, locate_now, set_location_interval, set_status_interval, Payload,
  payload, refused, interval_payload, payload_of, deliver, execute_rpc,
}
use zx909_gw.Command.Packets.{
  Order, restarts, shuts_down, locates, uploads_every, reports_every, encoded, IsAccepted,
  build_upload_interval-encoded, build_status_interval-encoded,
}
use zx909_gw.Command.Meaning.{
  Means, means_restart, means_shutdown, means_locate, means_uploads, means_reports, method_of,
  no_upload, no_report, unknown,
}

module _ (J : Json) where
  -- The packet of the accepted order that is meant, or a reason of the handler's own where none is.
  abbrev Packed : (method params : Bytes) → Payload J → Type 0
  Packed method params x =
      (((o : Order) → Means J method params o → ¬ IsAccepted o)
        × ((e : RpcError) × (e ≢ send_failed) × (x ≡ refused e)))
      ⊎ ((o : Order) × Means J method params o × IsAccepted o × (x ≡ payload (encoded o)))

  location-Packed :
      (method params : Bytes) (n : Option ℤ)
      → method ≡ set_location_interval
      → J.seconds params ≡ n
      → Packed method params
          (interval_payload J n (pos 10) (pos 7200) (λ n. build_upload_interval (low_word n)))
  unfolding interval_payload
  location-Packed method params none m f =
      inl (no_upload J m (λ k g a. absurd (cc)), (invalid_params, λ e. cc, refl))
  location-Packed method params (some (negsuc n)) m f =
      inl (no_upload J m (λ k g a. absurd (cc)), (out_of_range, λ e. cc, ground arith))
  location-Packed method params (some (pos n)) m f =
      elim (Bool-cases (is_outside (pos 10) (pos 7200) (pos n))) [
        | inl outside ↦ inl (
          no_upload J m (λ k g a.
              let same : n ≡ k = ground (arith, f, g) in ground (arith, outside, a.0, a.1)),
          (out_of_range, λ e. cc, rw outside),
        )
        | inr inside ↦ inr (
          uploads_every n,
          means_uploads n m f,
          (ground arith, ground arith),
          rw inside (ap payload (build_upload_interval-encoded n (ground arith) (ground arith))),
        )
      ]

  status-Packed :
      (method params : Bytes) (n : Option ℤ)
      → method ≡ set_status_interval
      → J.minutes params ≡ n
      → Packed method params (interval_payload J n (pos 1) (pos 60) build_status_interval)
  unfolding interval_payload
  status-Packed method params none m f =
      inl (no_report J m (λ k g a. absurd (cc)), (invalid_params, λ e. cc, refl))
  status-Packed method params (some (negsuc n)) m f =
      inl (no_report J m (λ k g a. absurd (cc)), (out_of_range, λ e. cc, ground arith))
  status-Packed method params (some (pos n)) m f =
      elim (Bool-cases (is_outside (pos 1) (pos 60) (pos n))) [
        | inl outside ↦ inl (
          no_report J m (λ k g a.
              let same : n ≡ k = ground (arith, f, g) in ground (arith, outside, a.0, a.1)),
          (out_of_range, λ e. cc, rw outside),
        )
        | inr inside ↦ inr (
          reports_every n,
          means_reports n m f,
          (ground arith, ground arith),
          rw inside (ap payload (build_status_interval-encoded n (ground arith) (ground arith))),
        )
      ]

  payload_of-Packed : (method params : Bytes) → Packed method params (payload_of J method params)
  unfolding payload_of build_restart build_shutdown build_locate
  payload_of-Packed method params = elim (Bool-cases (same_string method reboot)) [
    | inl m ↦ rw m (inr (restarts, means_restart (named reboot m), tt, refl))
    | inr m1 ↦ rw m1 (elim (Bool-cases (same_string method shutdown)) [
      | inl m ↦ rw m (inr (shuts_down, means_shutdown (named shutdown m), tt, refl))
      | inr m2 ↦ rw m2 (elim (Bool-cases (same_string method locate_now)) [
        | inl m ↦ rw m (inr (locates, means_locate (named locate_now m), tt, refl))
        | inr m3 ↦ rw m3 (elim (Bool-cases (same_string method set_location_interval)) [
          | inl m ↦ rw m (
              location-Packed method params (J.seconds params) (named set_location_interval m) refl)
          | inr m4 ↦ rw m4 (elim (Bool-cases (same_string method set_status_interval)) [
            | inl m ↦
                rw m (
                  status-Packed method params (J.minutes params) (named set_status_interval m) refl)
            | inr m5 ↦ rw m5 (
                inl (
                  unknown J method params (λ o.
                      elim o as (λ k. same_string method (method_of J k) ≡ false) [
                        | restarts ↦ m1
                        | shuts_down ↦ m2
                        | locates ↦ m3
                        | uploads_every n ↦ m4
                        | reports_every n ↦ m5
                      ]),
                  (unknown_method, λ e. cc, refl),
                ))
          ])
        ])
      ])
    ])
  ]
    where
      named : (name : Bytes) → same_string method name ≡ true → method ≡ name
      named name = (same_string_iff method name).0

  module _ (L : SessionLookup) where
    -- An RPC with any method and parameters: if they mean an order whose interval, if it has one, the
    -- tracker accepts (10 to 7200 seconds, 1 to 60 minutes), exactly one packet is sent, the encoding of
    -- that order, and the result is that of the sending; if they mean none, the RPC fails for a reason
    -- other than the sending and leaves the server alone.
    pub execute_rpc-encoded :
        (imei method params : Bytes) (s : L.State)
        → (((o : Order) → Means J method params o → ¬ IsAccepted o)
            × ((e : RpcError) × (e ≢ send_failed)
                × (execute_rpc J L imei method params s ≡ (some e, s))))
          ⊎ ((o : Order) × Means J method params o
              × IsAccepted o
              × (execute_rpc J L imei method params s ≡ (
                if (L.send imei (encoded o) s).0 then none else some send_failed,
                (L.send imei (encoded o) s).1,
              )))
    unfolding deliver
    execute_rpc-encoded imei method params s = elim (payload_of-Packed method params) [
      | inl (none_meant, (e, own, x)) ↦
          inl (none_meant, (e, own, unfold execute_rpc in rw (x, execute_rpc)))
      | inr (o, meant, accepted, x) ↦
          inr (o, meant, accepted, unfold execute_rpc in rw (x, execute_rpc))
    ]
