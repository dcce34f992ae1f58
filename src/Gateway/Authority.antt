-- ===== src/Gateway/Authority.antt =====
-- Runs of the gateway with its registry client.
use mathlib.Core.Path.{subst}
use zx909_gw.Prelude.{arith, ◌≡◌, ap, ◌∙◌, sym, inl, inr, List, [], ◌∷◌, ℕ}
use zx909_gw.Prelude.Int.{ℤ}
use zx909_gw.Bytes.{Bytes}
use zx909_gw.Platform.{Platform}
use zx909_gw.Protocol.Frame.{Frame}
use zx909_gw.Server.State.{Server, World, Task}
use zx909_gw.Server.Uplink.{run_task}
use zx909_gw.Server.Handle.{Conn, hang_up, handle_frame, send_to_device}
use zx909_gw.Server.Effects.{All}
use zx909_gw.Server.Trace.{Honest, IsClear, Run, done, turn, frames, hangs_up, runs, sends}
use zx909_gw.Server.Trace.Turns.{Run-IsClear}
use zx909_gw.Registry.{CacheEntry, Service}
use zx909_gw.Registry.{Client as RegistryClient}
use zx909_gw.Registry.Calls.Safe.{IsSound}
use zx909_gw.Registry.Recent.{Questions, asked, IsRecent, is_registered-IsRecent}
use zx909_gw.Geolocation.{new_client, is_enabled}
use zx909_gw.Server.WellFormed.Reach.{new_server}
use zx909_gw.Config.{Config, PaapeliConfig}
use zx909_gw.Gateway.{
  Registry, allow_all, paapeli, new_registry, registry_enabled, registry_answer, registry_world,
  assemble,
}

module _ (P : Platform) (Registered : Bytes → Type 0) where
  -- The world in which the registry client answers, after the questions `qs`.
  abbrev pub client_world : RegistryClient → ℤ → Questions → Service → World P → World P
  client_world c timeout qs sv w = registry_world P sv (paapeli timeout (asked qs c)) w

  -- The runs of the gateway from a server: the server and the questions to the registry client so far.
  pub data Serves (c : RegistryClient) (timeout : ℤ) (s : Server P)
      : Server P → Questions → Type 0 where
    starts : Serves c timeout s s []
    asks :
        {t : Server P} {qs : Questions} (sv : Service) (imei : Bytes)
        → IsSound Registered sv
        → Serves c timeout s t qs
        → Serves c timeout s t ((sv, imei) ∷ qs)
    handles :
        {t : Server P} {qs : Questions} (sv : Service) (w : World P) (f : Frame) (conn : Conn)
        → IsSound Registered sv
        → Serves c timeout s t qs
        → Serves c timeout s (handle_frame P (client_world c timeout qs sv w) f conn t).1 qs
    ends :
        {t : Server P} {qs : Questions} (conn : Conn)
        → Serves c timeout s t qs
        → Serves c timeout s (hang_up P conn t) qs
    works :
        {t : Server P} {qs : Questions} (sv : Service) (w : World P) (task : Task P)
        → IsSound Registered sv
        → Serves c timeout s t qs
        → Serves c timeout s (run_task P (client_world c timeout qs sv w) task t) qs
    orders :
        {t : Server P} {qs : Questions} (w : World P) (imei payload : Bytes)
        → Serves c timeout s t qs
        → Serves c timeout s (send_to_device P w imei payload t).1 qs

  AreSound : Questions → Type 0
  AreSound [] = Unit {0}
  AreSound ((sv, imei) ∷ qs) = IsSound Registered sv × AreSound qs

  IsRecent-Registered :
      (ttl now : ℕ) (k : Bytes) (qs : Questions)
      → AreSound qs
      → IsRecent ttl now k qs
      → Registered k
  unfolding AreSound IsRecent
  IsRecent-Registered ttl now k [] h r = absurd r
  IsRecent-Registered ttl now k ((sv, j) ∷ qs) h (inl (same, confirmed, young)) =
      subst Registered same (h.0 j confirmed)
  IsRecent-Registered ttl now k ((sv, j) ∷ qs) h (inr r) = IsRecent-Registered ttl now k qs h.1 r

  module _ (c : RegistryClient) (timeout : ℤ) (fresh : c.cache ≡ []) where
    client_world-Honest :
        (qs : Questions) (sv : Service) (w : World P)
        → AreSound qs
        → IsSound Registered sv
        → Honest P Registered (client_world c timeout qs sv w)
    unfolding registry_answer
    client_world-Honest qs sv w h sound k known =
        elim (is_registered-IsRecent qs c sv k fresh known).1 [
          | inl confirmed ↦ sound k confirmed
          | inr r ↦ IsRecent-Registered _ sv.now k qs h r
        ]

    Serves-AreSound : {s t : Server P} {qs : Questions} → Serves c timeout s t qs → AreSound qs
    unfolding AreSound
    Serves-AreSound starts = tt
    Serves-AreSound (asks sv imei sound r) = (sound, Serves-AreSound r)
    Serves-AreSound (handles sv w f conn sound r) = Serves-AreSound r
    Serves-AreSound (ends conn r) = Serves-AreSound r
    Serves-AreSound (works sv w task sound r) = Serves-AreSound r
    Serves-AreSound (orders w imei payload r) = Serves-AreSound r

    Serves-Run : {s t : Server P} {qs : Questions} → Serves c timeout s t qs → Run P Registered s t
    Serves-Run starts = done
    Serves-Run (asks sv imei sound r) = Serves-Run r
    Serves-Run (handles {qs = qs} sv w f conn sound r) = turn (Serves-Run r) (
        frames (client_world c timeout qs sv w) f conn
          (client_world-Honest qs sv w (Serves-AreSound r) sound))
    Serves-Run (ends conn r) = turn (Serves-Run r) (hangs_up conn)
    Serves-Run (works {qs = qs} sv w task sound r) = turn (Serves-Run r) (
        runs (client_world c timeout qs sv w) task
          (client_world-Honest qs sv w (Serves-AreSound r) sound))
    Serves-Run (orders w imei payload r) = turn (Serves-Run r) (sends w imei payload)

abbrev cached : Registry → List (Bytes × CacheEntry)
cached allow_all = []
cached (paapeli timeout c) = c.cache

-- The client that `New` gives has an empty cache.
new_registry-fresh : (cfg : PaapeliConfig) → cached (new_registry cfg) ≡ []
unfolding new_registry
new_registry-fresh cfg = ground arith

module _ (P : Platform) (Registered : Bytes → Type 0) where
  -- On a gateway that is put together from a configuration which gives it the registry client, in every
  -- run (frames on any connection, ends of connections, goroutines, commands and questions to the
  -- registry client in any order), if the service confirms only IMEIs that are registered whenever it
  -- is asked, then every device that ThingsBoard was asked to connect or to take telemetry for has a
  -- registered IMEI that is not empty.
  pub assemble-IsClear :
      (cfg : Config) (timeout : ℤ) (c : RegistryClient) {t : Server P} {qs : Questions}
      → (assemble P cfg).registry ≡ paapeli timeout c
      → Serves P Registered c timeout (assemble P cfg).server t qs
      → All (IsClear P Registered) t.log
  unfolding assemble registry_enabled
  assemble-IsClear cfg timeout c {t} e r =
      let located = is_enabled (new_client cfg.geolocation) in
      let fresh : c.cache ≡ [] = sym (ap cached e) ∙ new_registry-fresh cfg.paapeli in
      Run-IsClear P Registered located (
        subst (λ b. Run P Registered (new_server P b located) t) (ap registry_enabled e)
          (Serves-Run P Registered c timeout fresh r))
