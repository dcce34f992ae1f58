-- ===== src/Command/Packets.antt =====
-- Which packets the command handler sends.
use zx909_gw.Prelude.{
  ℕ, ◌+◌, ◌/◌, ◌%◌, ◌≤◌, ◌≡◌, ◌∙◌, sym, false, [], ◌∷◌, ◌++◌, some, arith, length,
}
use zx909_gw.Prelude.Int.{ℤ, pos}
use zx909_gw.Bytes.{Bytes, crlf}
use zx909_gw.Protocol.Commands.{low_word, build_upload_interval, build_status_interval}
use zx909_gw.Server.State.{same_string}
use zx909_gw.Command.{
  Json, SessionLookup, is_outside, set_location_interval, set_status_interval, Value, to_int,
  interval_payload, payload_of, deliver, execute_rpc, apply_interval, attribute, unless_failed,
  apply_shared_attributes,
}

-- The commands that a tracker understands, and their packets by the protocol's layout: the length
-- byte counts the protocol number and the argument.
pub data Order : Type 0 where
  restarts shuts_down locates : Order
  uploads_every reports_every : ℕ → Order

abbrev pub argument : Order → Bytes
argument restarts = 1 ∷ []
argument shuts_down = 2 ∷ []
argument locates = []
argument (uploads_every seconds) = seconds / 256 ∷ seconds % 256 ∷ []
argument (reports_every minutes) = minutes ∷ []

abbrev pub proto_of : Order → ℕ
proto_of restarts = 0x48
proto_of shuts_down = 0x48
proto_of locates = 0x80
proto_of (uploads_every seconds) = 0x97
proto_of (reports_every minutes) = 0x13

abbrev pub encoded : Order → Bytes
encoded o = 0x78 ∷ 0x78 ∷ (1 + length (argument o)) ∷ proto_of o ∷ (argument o ++ crlf)

-- The intervals that the tracker accepts.
abbrev pub IsAccepted : Order → Type 0
IsAccepted restarts = Unit {0}
IsAccepted shuts_down = Unit {0}
IsAccepted locates = Unit {0}
IsAccepted (uploads_every seconds) = (10 ≤ seconds) × (seconds ≤ 7200)
IsAccepted (reports_every minutes) = (1 ≤ minutes) × (minutes ≤ 60)

pub build_upload_interval-encoded :
    (n : ℕ)
    → 10 ≤ n
    → n ≤ 7200
    → build_upload_interval (low_word (pos n)) ≡ encoded (uploads_every n)
unfolding build_upload_interval
build_upload_interval-encoded n h k = ground arith

pub build_status_interval-encoded :
    (n : ℕ) → 1 ≤ n → n ≤ 60 → build_status_interval (pos n) ≡ encoded (reports_every n)
unfolding build_status_interval
build_status_interval-encoded n h k = ground arith

module _ (J : Json) where
  module _ (L : SessionLookup) where
    pub execute_rpc-location :
        (imei params : Bytes) (n : ℤ) (s : L.State)
        → J.seconds params ≡ some n
        → is_outside (pos 10) (pos 7200) n ≡ false
        → execute_rpc J L imei set_location_interval params s
          ≡ deliver J L imei (build_upload_interval (low_word n)) s
    unfolding same_string payload_of interval_payload execute_rpc
    execute_rpc-location imei params n s c inside = rw (c, inside, execute_rpc)

    execute_rpc-status :
        (imei params : Bytes) (n : ℤ) (s : L.State)
        → J.minutes params ≡ some n
        → is_outside (pos 1) (pos 60) n ≡ false
        → execute_rpc J L imei set_status_interval params s
          ≡ deliver J L imei (build_status_interval n) s
    unfolding same_string payload_of interval_payload execute_rpc
    execute_rpc-status imei params n s c inside = rw (c, inside, execute_rpc)

    apply_interval-deliver :
        (imei : Bytes) (v : Value J) (n low high : ℤ) (build : ℤ → Bytes) (s : L.State)
        → to_int J v ≡ some n
        → is_outside low high n ≡ false
        → apply_interval J L imei (attribute J L (some v)) low high build s
          ≡ deliver J L imei (build n) s
    unfolding apply_interval attribute
    apply_interval-deliver imei v n low high build s a inside = rw (a, inside)

    -- Two attributes whose values are intervals in range act as the two RPCs with these intervals, the
    -- location interval first; the second is left out if the first is not sent.
    pub apply_shared_attributes-execute_rpc :
        (imei params params' : Bytes) (v v' : Value J) (n m : ℤ) (s : L.State)
        → to_int J v ≡ some n
        → to_int J v' ≡ some m
        → J.seconds params ≡ some n
        → J.minutes params' ≡ some m
        → is_outside (pos 10) (pos 7200) n ≡ false
        → is_outside (pos 1) (pos 60) m ≡ false
        → apply_shared_attributes J L imei (some v) (some v') s
          ≡ unless_failed J L
              (execute_rpc J L imei set_location_interval params s)
              (λ s'. execute_rpc J L imei set_status_interval params' s')
    unfolding apply_shared_attributes
    apply_shared_attributes-execute_rpc imei params params' v v' n m s a b c d in1 in2 i =
        unless_failed J L (first i) (λ s'. second s' i)
      where
        first :
            apply_interval J L imei
              (attribute J L (some v))
              (pos 10)
              (pos 7200)
              (λ n. build_upload_interval (low_word n))
              s
            ≡ execute_rpc J L imei set_location_interval params s
        first =
            apply_interval-deliver imei v n (pos 10) (pos 7200)
              (λ n. build_upload_interval (low_word n)) s a in1
            ∙ sym (execute_rpc-location imei params n s c in1)

        second :
            (s' : L.State)
            → apply_interval J L imei
                (attribute J L (some v'))
                (pos 1)
                (pos 60)
                build_status_interval
                s'
              ≡ execute_rpc J L imei set_status_interval params' s'
        second s' =
            apply_interval-deliver imei v' m (pos 1) (pos 60) build_status_interval s' b in2
            ∙ sym (execute_rpc-status imei params' m s' d in2)
