-- ===== src/Server/SafeConn.antt =====
-- internal/server/server.go: `SafeConn`, the connection that many goroutines write to under a mutex.
pub mod Serial
pub mod Tests
use zx909_gw.Prelude.{
  update, ℕ, ◌+◌, ◌≡◌, Bool, true, false, List, [], ◌∷◌, ◌++◌, Option, none, some, ◌==◌,
  if◌then◌else◌,
}
use zx909_gw.Bytes.{Bytes}

-- The calls that goroutines make: a payload with the time it may take, or `Close`.
pub data Call : Type 0 where
  write_with_deadline : Bytes → ℕ → Call
  close : Call

-- A write that has returned: its payload is what it has put on the wire and what is left of it. The
-- error is nil if nothing is left.
pub record Written : Type 0 where
  pub payload : Bytes
  pub put : Bytes
  pub left : Bytes

-- The mutex with the goroutine that holds it, the write deadline of the socket, the bytes on the wire,
-- whether the socket is closed, and the writes that have returned, in order.
pub record SafeConn : Type 0 where
  pub mu : Option ℕ
  pub deadline : ℕ
  pub wire : Bytes
  pub is_closed : Bool
  pub log : List Written

-- `NewSafeConn`.
abbrev pub new_safe_conn : SafeConn
new_safe_conn = record { mu = none; deadline = 0; wire = []; is_closed = false; log = [] }

-- Where a goroutine stands.
pub data Pc : Type 0 where
  idle : Pc
  locks : Call → Pc  -- before `sc.mu.Lock()`
  holds : Call → Pc  -- behind it
  writes : (payload : Bytes) (until : ℕ) (put left : Bytes) → Pc  -- in `sc.conn.Write`
  wrote : (payload : Bytes) (until : ℕ) (put left : Bytes) → Pc  -- before the deferred `Unlock`
  shut : Pc  -- the same, in `Close`

-- One step of goroutine `i`. The socket takes the bytes of a write in pieces of any size, unless it is
-- closed, and a write may return at any time, with an error if bytes are left.
pub data Move (i : ℕ) (c : SafeConn) : Pc → SafeConn → Pc → Type 0 where
  calls : (k : Call) → Move i c idle c (locks k)
  enters : {k : Call} → c.mu ≡ none → Move i c (locks k) (record c { mu = some i }) (holds k)
  arms :
      {payload : Bytes} {d : ℕ} (now : ℕ)
      → Move i c
          (holds (write_with_deadline payload d))
          (record c { deadline = now + d })
          (writes payload (now + d) [] payload)
  puts :
      {payload put left : Bytes} {until : ℕ} (xs ys : Bytes)
      → left ≡ xs ++ ys
      → c.is_closed ≡ false
      → Move i c
          (writes payload until put left)
          (record c { wire = c.wire ++ xs })
          (writes payload until (put ++ xs) ys)
  returns :
      {payload put left : Bytes} {until : ℕ}
      → Move i c (writes payload until put left) c (wrote payload until put left)
  closes : Move i c (holds close) (record c { is_closed = true }) shut
  leaves :
      {payload put left : Bytes} {until : ℕ}
      → Move i c
          (wrote payload until put left)
          (record c {
            mu = none;
            log = c.log ++ (record { payload = payload; put = put; left = left } ∷ []);
          })
          idle
  leaves_shut : Move i c shut (record c { mu = none }) idle

-- The connection and its goroutines, interleaved in any order.
pub record System : Type 0 where
  pub conn : SafeConn
  pub pc : ℕ → Pc

pub data Step (s : System) : System → Type 0 where
  pick :
      (i : ℕ) {p p' : Pc} {c : SafeConn}
      → s.pc i ≡ p
      → Move i s.conn p c p'
      → Step s (record { conn = c; pc = update s.pc i p' })

abbrev pub new_system : System
new_system = record { conn = new_safe_conn; pc = λ i. idle }

pub data Reach : System → Type 0 where
  start : Reach new_system
  later : {s t : System} → Reach s → Step s t → Reach t
