-- ===== src/Server/State.antt =====
-- internal/server/server.go: the state of the server and the operations on its session map.
-- A `*Session` is a number, the index of the session in `heap`; a `*SafeConn` is a number too.
-- What the server asks others to do is recorded in `log`, and the goroutines that it has started
-- and that have not run are in `tasks`.
use zx909_gw.Prelude.{
  ℕ, suc, Bool, true, false, not, ◌&&◌, List, [], ◌∷◌, ◌++◌, Option, none, some, ◌==◌,
  if◌then◌else◌,
}
use zx909_gw.Prelude.Int.{ℤ}
use zx909_gw.Bytes.{Bytes}
use zx909_gw.Platform.{Platform}
use zx909_gw.Protocol.Gps.{Position}
use zx909_gw.Protocol.WifiLbs.{WifiLbs, WifiAp, CellTower}

-- Equality of two Go strings, as their bytes.
unfoldable pub same_string : Bytes → Bytes → Bool
same_string [] [] = true
same_string (a ∷ as') (b ∷ bs) = a == b && same_string as' bs
same_string _ _ = false

-- A Go map from IMEIs to pointers, with at most one entry for a key.
unfoldable pub find_session : Bytes → List (Bytes × ℕ) → Option ℕ
unfolding same_string
find_session imei [] = none
find_session imei ((k, p) ∷ m) = if same_string k imei then some p else find_session imei m

unfoldable pub put_session : Bytes → ℕ → List (Bytes × ℕ) → List (Bytes × ℕ)
unfolding same_string
put_session imei p [] = (imei, p) ∷ []
put_session imei p ((k, q) ∷ m) =
    if same_string k imei then (k, p) ∷ m else (k, q) ∷ put_session imei p m

unfoldable pub delete_session : Bytes → List (Bytes × ℕ) → List (Bytes × ℕ)
unfolding same_string
delete_session imei [] = []
delete_session imei ((k, q) ∷ m) = if same_string k imei then m else (k, q) ∷ delete_session imei m

module _ (P : Platform) where
  open P use {Time, Float}

  pub record Session : Type 0 where
    pub imei : Bytes
    pub conn : ℕ
    pub remote : Bytes
    pub connected : Time
    pub last_seen : Time
    pub tb_connected : Bool

  -- The result of the geolocation client.
  pub record Location : Type 0 where
    pub latitude : Float
    pub longitude : Float
    pub accuracy : Float

  -- The `values` of a telemetry message.
  pub data Telemetry : Type 0 where
    iccid : Bytes → Telemetry
    battery : ℤ → Telemetry
    gps : Position P → Telemetry
    lbs_wifi : Float → Float → Telemetry

  pub data Output : Type 0 where
    write : ℕ → Bytes → Output
    close : ℕ → Output
    connect_device : Bytes → Output
    disconnect_device : Bytes → Output
    publish_telemetry : Bytes → Time → Telemetry → Output

  pub data Task : Type 0 where
    maybe_connect_tb : Option ℕ → Bytes → Task
    resolve_and_publish_lbs : Bytes → WifiLbs P → Task

  pub record Server : Type 0 where
    pub reg_enabled : Bool
    pub geo_enabled : Bool
    pub sessions : List (Bytes × ℕ)
    pub heap : List (ℕ × Session)
    pub next : ℕ
    pub log : List Output
    pub tasks : List Task

  -- What the environment answers while one frame or task is handled.
  pub record World : Type 0 where
    pub now : Time
    pub later : Time
    pub is_registered : Bytes → Bool
    pub connect_ok : Bytes → Bool
    pub write_ok : ℕ → Bool
    pub locate : List WifiAp → List CellTower → Option Location

  unfoldable pub emit : Output → Server → Server
  emit o s = record s { log = s.log ++ (o ∷ []) }

  unfoldable pub deref : ℕ → List (ℕ × Session) → Option Session
  deref p [] = none
  deref p ((q, x) ∷ h) = if q == p then some x else deref p h

  unfoldable pub update : ℕ → (Session → Session) → List (ℕ × Session) → List (ℕ × Session)
  update p f [] = []
  update p f ((q, x) ∷ h) = if q == p then (q, f x) ∷ h else (q, x) ∷ update p f h

  unfoldable pub touch : Time → Option ℕ → Server → Server
  touch now none s = s
  touch now (some p) s = record s { heap = update p (λ x. record x { last_seen = now }) s.heap }

  unfoldable pub mark_connected : ℕ → Server → Server
  mark_connected p s = record s { heap = update p (λ x. record x { tb_connected = true }) s.heap }

  -- `sess != nil && sess.tbConnectedLocked()`.
  unfoldable pub is_tb_connected : Option ℕ → Server → Bool
  is_tb_connected none s = false
  is_tb_connected (some p) s = elim (deref p s.heap) [ none ↦ false | some x ↦ x.tb_connected ]

  -- `old.Conn.Close()` where the map holds a session on another connection.
  unfoldable pub close_old : Option ℕ → ℕ → Server → Server
  close_old none conn s = s
  close_old (some p) conn s = elim (deref p s.heap) [
    | none ↦ s
    | some old ↦ if not (old.conn == conn) then emit (close old.conn) s else s
  ]

  unfoldable pub register_session : Time → Time → Bytes → ℕ → Bytes → Server → ℕ × Server
  unfolding close_old emit
  register_session now later imei conn remote s =
      let s' = close_old (find_session imei s.sessions) conn s in
      let fresh : Session = record {
        imei = imei;
        conn = conn;
        remote = remote;
        connected = now;
        last_seen = later;
        tb_connected = false;
      } in
      (
        s'.next,
        record s' {
          heap = (s'.next, fresh) ∷ s'.heap;
          next = suc s'.next;
          sessions = put_session imei s'.next s'.sessions;
        },
      )

  -- `ok && cur == sess`.
  unfoldable pub is_current : Option ℕ → Option ℕ → Bool
  is_current (some cur) (some sess) = cur == sess
  is_current _ _ = false

  unfoldable pub remove_session : Bytes → Option ℕ → Server → Server
  unfolding is_current
  remove_session imei sess s =
      if is_current (find_session imei s.sessions) sess
      then record s { sessions = delete_session imei s.sessions }
      else s
