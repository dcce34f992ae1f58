-- ===== src/Command/Meaning.antt =====
-- Which order an RPC means, and when it means none that a tracker accepts.
use mathlib.Core.Path.{subst}
use zx909_gw.Prelude.{ℕ, ◌≡◌, ◌≢◌, refl, ◌∙◌, sym, false, some, arith}
use zx909_gw.Prelude.Int.{pos}
use zx909_gw.Bytes.{Bytes}
use zx909_gw.Server.State.{same_string}
use zx909_gw.Server.Sessions.{same_string_iff}
use zx909_gw.Command.{
  Json, reboot, shutdown, locate_now, set_location_interval, set_status_interval,
}
use zx909_gw.Command.Packets.{
  Order, restarts, shuts_down, locates, uploads_every, reports_every, IsAccepted,
}

-- Names that the test of `execute_rpc` tells apart are different.
apart : (a b : Bytes) → same_string a b ≡ false → a ≢ b
apart a b differ same = let equal = (same_string_iff a b).1 same in absurd (ground arith)

location_status : set_location_interval ≢ set_status_interval
location_status = apart set_location_interval set_status_interval (unfold same_string in refl)

-- The names of the methods without parameters.
abbrev IsApart : Bytes → Type 0
IsApart name = (name ≢ reboot) × (name ≢ shutdown) × (name ≢ locate_now)

location-IsApart : IsApart set_location_interval
location-IsApart = (
  apart set_location_interval reboot (unfold same_string in refl),
  apart set_location_interval shutdown (unfold same_string in refl),
  apart set_location_interval locate_now (unfold same_string in refl),
)

status-IsApart : IsApart set_status_interval
status-IsApart = (
  apart set_status_interval reboot (unfold same_string in refl),
  apart set_status_interval shutdown (unfold same_string in refl),
  apart set_status_interval locate_now (unfold same_string in refl),
)

module _ (J : Json) where
  -- Which order a method with its parameters means, by the protocol of the RPC methods.
  pub data Means (method params : Bytes) : Order → Type 0 where
    means_restart : method ≡ reboot → Means method params restarts
    means_shutdown : method ≡ shutdown → Means method params shuts_down
    means_locate : method ≡ locate_now → Means method params locates
    means_uploads :
        (n : ℕ)
        → method ≡ set_location_interval
        → J.seconds params ≡ some (pos n)
        → Means method params (uploads_every n)
    means_reports :
        (n : ℕ)
        → method ≡ set_status_interval
        → J.minutes params ≡ some (pos n)
        → Means method params (reports_every n)

  -- The name of the method that means an order.
  abbrev pub method_of : Order → Bytes
  method_of restarts = reboot
  method_of shuts_down = shutdown
  method_of locates = locate_now
  method_of (uploads_every n) = set_location_interval
  method_of (reports_every n) = set_status_interval

  pub Means-method :
      {method params : Bytes} (o : Order) → Means method params o → method ≡ method_of o
  Means-method restarts (means_restart e) = e
  Means-method shuts_down (means_shutdown e) = e
  Means-method locates (means_locate e) = e
  Means-method (uploads_every _) (means_uploads n e f) = e
  Means-method (reports_every _) (means_reports n e f) = e

  only_location :
      {method params : Bytes}
      → method ≡ set_location_interval
      → (o : Order) → Means method params o
      → (k : ℕ) × (o ≡ uploads_every k) × (J.seconds params ≡ some (pos k))
  only_location m restarts (means_restart e) = absurd (location-IsApart.0 (sym m ∙ e))
  only_location m shuts_down (means_shutdown e) = absurd (location-IsApart.1 (sym m ∙ e))
  only_location m locates (means_locate e) = absurd (location-IsApart.2 (sym m ∙ e))
  only_location m (uploads_every _) (means_uploads k e f) = (k, refl, f)
  only_location m (reports_every _) (means_reports k e f) = absurd (location_status (sym m ∙ e))

  only_status :
      {method params : Bytes}
      → method ≡ set_status_interval
      → (o : Order) → Means method params o
      → (k : ℕ) × (o ≡ reports_every k) × (J.minutes params ≡ some (pos k))
  only_status m restarts (means_restart e) = absurd (status-IsApart.0 (sym m ∙ e))
  only_status m shuts_down (means_shutdown e) = absurd (status-IsApart.1 (sym m ∙ e))
  only_status m locates (means_locate e) = absurd (status-IsApart.2 (sym m ∙ e))
  only_status m (uploads_every _) (means_uploads k e f) = absurd (location_status (sym e ∙ m))
  only_status m (reports_every _) (means_reports k e f) = (k, refl, f)

  -- Where the parameter is no interval in range, no order that is accepted is meant.
  pub no_upload :
      {method params : Bytes}
      → method ≡ set_location_interval
      → ((k : ℕ) → J.seconds params ≡ some (pos k) → ¬ IsAccepted (uploads_every k))
      → (o : Order) → Means method params o
      → ¬ IsAccepted o
  no_upload m outside o h a =
      let (k, same, f) = only_location m o h in outside k f (subst IsAccepted same a)

  pub no_report :
      {method params : Bytes}
      → method ≡ set_status_interval
      → ((k : ℕ) → J.minutes params ≡ some (pos k) → ¬ IsAccepted (reports_every k))
      → (o : Order) → Means method params o
      → ¬ IsAccepted o
  no_report m outside o h a =
      let (k, same, f) = only_status m o h in outside k f (subst IsAccepted same a)

  -- A method with another name than those of the orders.
  pub unknown :
      (method params : Bytes)
      → ((o : Order) → same_string method (method_of o) ≡ false)
      → (o : Order) → Means method params o
      → ¬ IsAccepted o
  unknown method params other o h a =
      let same = (same_string_iff method (method_of o)).1 (Means-method o h) in
      let differs = other o in absurd (cc)
