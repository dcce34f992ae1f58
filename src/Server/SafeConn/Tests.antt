-- ===== src/Server/SafeConn/Tests.antt =====
-- A concrete run of two goroutines on one connection.
use zx909_gw.Prelude.{◌≡◌, refl, [], ◌∷◌, some}
use zx909_gw.Server.SafeConn.{
  write_with_deadline, close, System, calls, enters, arms, puts, returns, pick, Reach, start, later,
}
use zx909_gw.Server.SafeConn.Serial.{IsSerial, Reach-IsSerial}

-- Goroutine 0 writes two bytes, of which the socket takes one; goroutine 1 waits to close it.
abbrev torn : (s : System) × Reach s
torn = (
  _,
  later
      (later
        (later
          (later
            (later (later start (pick 0 refl (calls (write_with_deadline (1 ∷ 2 ∷ []) 10))))
              (pick 1 refl (calls close)))
            (pick 0 refl (enters refl)))
          (pick 0 refl (arms 5)))
        (pick 0 refl (puts (1 ∷ []) (2 ∷ []) refl refl)))
      (pick 0 refl returns),
)

torn_run : (torn.0.conn.wire ≡ 1 ∷ []) × (torn.0.conn.deadline ≡ 15) × (torn.0.conn.mu ≡ some 0)
torn_run = (refl, refl, refl)

Reach-IsSerial_example : IsSerial torn.0
Reach-IsSerial_example = Reach-IsSerial torn.1
