-- ===== src/Server/Calls/Whole.antt =====
-- What a handler does without interruption is a run of the goroutines that interleave.
use zx909_gw.Prelude.{
  update, ℕ, zero, suc, ◌≡◌, refl, ◌∙◌, Bool, true, false, List, ◌∷◌, ◌++◌, Option, arith,
  if◌then◌else◌,
}
use mathlib.Core.Path.{subst}
use zx909_gw.Bytes.{Bytes}
use zx909_gw.Platform.{Platform}
use zx909_gw.Server.State.{Server, World, Telemetry, Task, maybe_connect_tb}
use zx909_gw.Server.Uplink.{publish, connect_session}
use zx909_gw.Server.Calls.{Pc, idle, publishes, connects, advance, turns}
use zx909_gw.Server.Calls.Alone.{turns-publish, turns-connect_session}
use zx909_gw.Server.Calls.System.{
  Section, System, Step, elsewhere, calls, runs, advances, Reach, stays, steps,
}

module _ (P : Platform) where
  open P use {Time}

  Reach-trans : {x y z : System P} → Reach P x y → Reach P y z → Reach P x z
  Reach-trans r stays = r
  Reach-trans r (steps q st) = steps (Reach-trans r q) st

  -- Goroutine 0 has come to `r`, and the others stand where they stood in `y`.
  record Comes (y : System P) (r : Pc P × Server P) : Type 0 where
    pc : ℕ → Pc P
    at : pc 0 ≡ r.0
    others : (j : ℕ) → pc (suc j) ≡ y.pc (suc j)
    path : Reach P y (record { server = r.1; pc = pc })

  update-others : (pc : ℕ → Pc P) (p : Pc P) (j : ℕ) → update pc 0 p (suc j) ≡ pc (suc j)
  update-others pc p j = ground arith

  turns-Comes :
      (n : ℕ) (w : World P) (p : Pc P) (y : System P)
      → y.pc 0 ≡ p
      → Comes y (turns P n w p y.server)
  unfolding turns
  turns-Comes zero w p y e = record { pc = y.pc; at = e; others = λ j. refl; path = stays }
  turns-Comes (suc n) w p y e =
      let r = advance P w p y.server in
      let z : System P = record { server = r.1; pc = update y.pc 0 r.0 } in
      let first : Step P y z =
        subst
          (λ q. Step P y (record {
            server = (advance P w q y.server).1;
            pc = update y.pc 0 (advance P w q y.server).0;
          }))
          e (advances w 0) in
      let rest = turns-Comes n w r.0 z refl in
      record {
        pc = rest.pc;
        at = rest.at;
        others = λ j. rest.others j ∙ update-others y.pc r.0 j;
        path = Reach-trans (steps stays first) rest.path;
      }

  abbrev pub AllIdle : (ℕ → Pc P) → Type 0
  AllIdle pc = (j : ℕ) → pc j ≡ idle

  -- A run from `y`, with nobody in a call, to `t`, where again nobody is.
  pub record Ends (y : System P) (t : Server P) : Type 0 where
    pub pc : ℕ → Pc P
    pub rests : AllIdle pc
    pub path : Reach P y (record { server = t; pc = pc })

  pub record Runs (s t : Server P) : Type 0 where
    pub ends : (pc : ℕ → Pc P) → AllIdle pc → Ends (record { server = s; pc = pc }) t

  pub Runs-refl : (s : Server P) → Runs s s
  Runs-refl s = record { ends = λ pc all. record { pc = pc; rests = all; path = stays } }

  pub Runs-trans : {s t u : Server P} → Runs s t → Runs t u → Runs s u
  Runs-trans a b = record {
    ends = λ pc all.
        let x = a.ends pc all in
        let y = b.ends x.pc x.rests in
        record { pc = y.pc; rests = y.rests; path = Reach-trans x.path y.path };
  }

  pub Runs-Section : {s t : Server P} → Section P s t → Runs s t
  Runs-Section sec = record {
    ends = λ pc all. record { pc = pc; rests = all; path = steps stays (elsewhere sec) };
  }

  Comes-Ends : {y : System P} {t : Server P} → AllIdle y.pc → Comes y (idle, t) → Ends y t
  Comes-Ends {y} all c = record { pc = c.pc; rests = rests; path = c.path }
    where
      rests : AllIdle c.pc
      rests zero = c.at
      rests (suc j) = c.others j ∙ all (suc j)

  -- A step that puts goroutine 0 into a call, and the call.
  call-Ends :
      (n : ℕ) (w : World P) (p : Pc P) (y : System P) (t : Server P)
      → AllIdle y.pc
      → Step P y (record y { pc = update y.pc 0 p })
      → turns P n w p y.server ≡ (idle, t)
      → Ends y t
  call-Ends n w p y t all st e =
      let c = turns-Comes n w p (record y { pc = update y.pc 0 p }) refl in
      Comes-Ends all (
        subst (Comes y) e (record {
          pc = c.pc;
          at = c.at;
          others = λ j. c.others j ∙ update-others y.pc p j;
          path = Reach-trans (steps stays st) c.path;
        }))

  pub publish-Runs :
      (w : World P) (imei : Bytes) (ts : Time) (values : Telemetry P) (s : Server P)
      → Runs s (publish P w imei ts values s)
  publish-Runs w imei ts values s = record {
    ends = λ pc all.
        call-Ends 6 w (publishes imei ts values) (record { server = s; pc = pc }) _ all
          (calls 0 imei ts values (all 0)) (turns-publish P w imei ts values s);
  }

  pub connect_session-Runs :
      (w : World P) (p : Option ℕ) (imei : Bytes) (s : Server P) (ts us : List (Task P))
      → s.tasks ≡ ts ++ (maybe_connect_tb p imei ∷ us)
      → Runs s (connect_session P w p imei s)
  connect_session-Runs w p imei s ts us started = record {
    ends = λ pc all.
        call-Ends 3 w (connects p imei) (record { server = s; pc = pc }) _ all
          (runs 0 p imei ts us (all 0) started) (turns-connect_session P w p imei s);
  }

  pub if-Runs : (b : Bool) (s t u : Server P) → Runs s t → Runs s u → Runs s (if b then t else u)
  if-Runs true s t u x y = x
  if-Runs false s t u x y = y
