-- ===== src/Registry/Calls/Tests.antt =====
-- Concrete calls of the registry client.
use zx909_gw.Prelude.{
  ℕ, ◌≡◌, refl, ap, inl, inr, [], ◌∷◌, Option, none, some, arith, if◌then◌else◌, Bool-cases,
}
use zx909_gw.Bytes.{Bytes}
use zx909_gw.Samples.{sample_imei}
use zx909_gw.Server.State.{same_string}
use zx909_gw.Server.Sessions.{same_string_iff}
use zx909_gw.Registry.{Service}
use zx909_gw.Registry.Tests.{sample_service, stale_client}
use zx909_gw.Registry.Calls.{idle}
use zx909_gw.Registry.Calls.Safe.{
  System, IsSound, Reach, here, next, begins, steps, AreRight, Reach-AreRight,
}

-- The only IMEI that is registered.
abbrev pub IsSample : Bytes → Type 0
IsSample k = sample_imei ≡ k

-- A service that knows it alone.
abbrev pub strict_service : Service
strict_service = record sample_service {
  tracker = λ attempt token imei.
      if same_string sample_imei imei then some (200, 1 ∷ []) else some (404, []);
}

abbrev status_of : Option (ℕ × Bytes) → ℕ
status_of none = 0
status_of (some (status, body)) = status

pub strict_service-IsSound : IsSound IsSample strict_service
strict_service-IsSound k h =
    let answered : status_of (strict_service.tracker h.attempt h.token k) ≡ h.status =
      ap status_of h.answer in
    (same_string_iff sample_imei k).0 (elim (Bool-cases (same_string sample_imei k)) [
      | inl same ↦ same
      | inr other ↦ absurd (ground (arith, other, answered, h.success))
    ])

-- Two calls about the same IMEI: each looks into the cache before the other has filled it.
abbrev crossed : (t : System) × Reach IsSample (record { client = stale_client; pc = λ i. idle }) t
crossed = (
  _,
  next
      (next
        (next (next (next here (begins 0 sample_imei)) (begins 1 sample_imei))
          (steps 0 strict_service strict_service-IsSound))
        (steps 1 strict_service strict_service-IsSound))
      (steps 0 strict_service strict_service-IsSound),
)

Reach-AreRight_example : AreRight IsSample crossed.0
Reach-AreRight_example = Reach-AreRight IsSample stale_client refl crossed.1
