-- ===== src/Command.antt =====
-- internal/command/handler.go: RPC methods and shared attributes, turned into packets for a device.
pub mod Packets
pub mod Meaning
pub mod Orders
pub mod Delivery
pub mod Tests
use zx909_gw.Prelude.{
  ℕ, Bool, true, false, not, ◌&&◌, ◌||◌, [], ◌∷◌, Option, none, some, if◌then◌else◌,
}
use zx909_gw.Prelude.Int.{ℤ, pos, ltb_ℤ}
use zx909_gw.Bytes.{Bytes}
use zx909_gw.Protocol.Commands.{
  low_word, build_restart, build_shutdown, build_locate, build_upload_interval,
  build_status_interval,
}
use zx909_gw.Server.State.{same_string}

-- The names of the methods and of the attributes.
abbrev pub reboot : Bytes
reboot = b'r' ∷ b'e' ∷ b'b' ∷ b'o' ∷ b'o' ∷ b't' ∷ []

abbrev pub shutdown : Bytes
shutdown = b's' ∷ b'h' ∷ b'u' ∷ b't' ∷ b'd' ∷ b'o' ∷ b'w' ∷ b'n' ∷ []

abbrev pub locate_now : Bytes
locate_now = b'l' ∷ b'o' ∷ b'c' ∷ b'a' ∷ b't' ∷ b'e' ∷ []

abbrev pub set_location_interval : Bytes
set_location_interval =
    b's' ∷ b'e' ∷ b't' ∷ b'L' ∷ b'o' ∷ b'c' ∷ b'a' ∷ b't' ∷ b'i' ∷ b'o' ∷ b'n' ∷ b'I' ∷ b'n' ∷ b't'
    ∷ b'e' ∷ b'r' ∷ b'v' ∷ b'a' ∷ b'l' ∷ []

abbrev pub set_status_interval : Bytes
set_status_interval =
    b's' ∷ b'e' ∷ b't' ∷ b'S' ∷ b't' ∷ b'a' ∷ b't' ∷ b'u' ∷ b's' ∷ b'I' ∷ b'n' ∷ b't' ∷ b'e' ∷ b'r'
    ∷ b'v' ∷ b'a' ∷ b'l' ∷ []

pub data RpcError : Type 0 where
  invalid_params out_of_range unknown_method send_failed : RpcError

-- `x < low || x > high`.
abbrev pub is_outside : ℤ → ℤ → ℤ → Bool
is_outside low high x = ltb_ℤ x low || ltb_ℤ high x

-- encoding/json, and Go's conversions of its values: `json.Unmarshal` into a struct with the one
-- field `seconds` or `minutes`, `int(n)` of a `float64`, `Int64` of a `json.Number`.
pub record Json : Type 1 where
  pub Float : Type 0
  pub seconds : Bytes → Option ℤ
  pub minutes : Bytes → Option ℤ
  pub truncate : Float → ℤ
  pub int_of_number : Bytes → Option ℤ

-- What the handler needs of the server: `SendToDevice`, with `false` for an error.
pub record SessionLookup : Type 1 where
  pub State : Type 0
  pub send : Bytes → Bytes → State → Bool × State

module _ (J : Json) where
  -- The dynamic types of an attribute that `toInt` tells apart.
  pub data Value : Type 0 where
    float64 : J.Float → Value
    int int64 : ℤ → Value
    number : Bytes → Value
    other : Value

  unfoldable pub to_int : Value → Option ℤ
  to_int (float64 x) = some (J.truncate x)
  to_int (int n) = some n
  to_int (int64 n) = some n
  to_int (number text) = J.int_of_number text
  to_int other = none

  -- The payload of a method, or why there is none.
  pub data Payload : Type 0 where
    payload : Bytes → Payload
    refused : RpcError → Payload

  unfoldable pub interval_payload : Option ℤ → ℤ → ℤ → (ℤ → Bytes) → Payload
  interval_payload none low high build = refused invalid_params
  interval_payload (some n) low high build =
      if is_outside low high n then refused out_of_range else payload (build n)

  unfoldable pub payload_of : Bytes → Bytes → Payload
  unfolding interval_payload
  payload_of method params =
      if same_string method reboot
      then payload build_restart
      else if same_string method shutdown
      then payload build_shutdown
      else if same_string method locate_now
      then payload build_locate
      else if same_string method set_location_interval
      then interval_payload (J.seconds params) (pos 10) (pos 7200)
          (λ n. build_upload_interval (low_word n))
      else if same_string method set_status_interval
      then interval_payload (J.minutes params) (pos 1) (pos 60) build_status_interval
      else refused unknown_method

  module _ (L : SessionLookup) where
    -- `none` stands for the nil error.
    unfoldable pub deliver : Bytes → Bytes → L.State → Option RpcError × L.State
    deliver imei packet s =
        let r = L.send imei packet s in (if r.0 then none else some send_failed, r.1)

    unfoldable pub execute_rpc : Bytes → Bytes → Bytes → L.State → Option RpcError × L.State
    unfolding payload_of deliver
    execute_rpc imei method params s = elim (payload_of method params) [
      | refused e ↦ (some e, s)
      | payload packet ↦ deliver imei packet s
    ]

    -- One attribute: absent, not a number or out of range, it is passed over.
    unfoldable pub apply_interval :
        Bytes → Option ℤ → ℤ → ℤ → (ℤ → Bytes) → L.State → Option RpcError × L.State
    unfolding deliver
    apply_interval imei none low high build s = (none, s)
    apply_interval imei (some n) low high build s =
        if is_outside low high n then (none, s) else deliver imei (build n) s

    unfoldable pub attribute : Option Value → Option ℤ
    unfolding to_int
    attribute none = none
    attribute (some v) = to_int v

    -- `if err := f(…); err != nil { return err }`, and then `next`.
    unfoldable pub unless_failed :
        Option RpcError × L.State
        → (L.State → Option RpcError × L.State)
        → Option RpcError × L.State
    unless_failed r next = elim r.0 [ none ↦ next r.1 | some e ↦ (some e, r.1) ]

    -- The attributes `locationIntervalSeconds` and `statusIntervalMinutes`.
    unfoldable pub apply_shared_attributes :
        Bytes → Option Value → Option Value → L.State → Option RpcError × L.State
    unfolding apply_interval attribute unless_failed
    apply_shared_attributes imei location status s =
        unless_failed
          (apply_interval imei (attribute location) (pos 10) (pos 7200)
            (λ n. build_upload_interval (low_word n)) s)
          (λ s'. apply_interval imei (attribute status) (pos 1) (pos 60) build_status_interval s')
