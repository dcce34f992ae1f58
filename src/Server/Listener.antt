-- ===== src/Server/Listener.antt =====
-- internal/server/server.go: `ListenAndServe` and `Shutdown` as one state and the events at which
-- their goroutines, those of the connections and the network take turns.
pub mod Stops
pub mod Reach
pub mod Shutdown
pub mod Tests
use zx909_gw.Prelude.{
  ℕ, Bool, true, false, not, List, [], ◌∷◌, Option, none, some, if◌then◌else◌, ◌==◌,
}

-- The listening socket, `ln`.
pub data Socket : Type 0 where
  absent open_socket closed_socket : Socket

-- Where `ListenAndServe` stands; `holding` is between `Accept` and `wg.Add`, and the result of
-- `stopped` is whether it returns nil.
pub data Loop : Type 0 where
  starting accepting : Loop
  holding : ℕ → Loop
  stopped : Bool → Loop

-- Where `Shutdown` stands; `marked` is between setting `closing` and closing the socket.
pub data Phase : Type 0 where
  not_called marked waiting returned : Phase

-- `handlers` has the connections whose goroutine `wg` counts.
pub record Listener : Type 0 where
  pub socket : Socket
  pub loop : Loop
  pub closing : Bool
  pub phase : Phase
  pub handlers : List ℕ

pub data Event : Type 0 where
  -- `net.Listen`, with its success.
  listens : Bool → Event
  -- `Accept` gives a connection, or an error.
  accepts : ℕ → Event
  accept_fails : Event
  -- `wg.Add(1)` and the start of `handleConn`.
  starts : Event
  -- The last deferred call of `handleConn`, `wg.Done`.
  ends : ℕ → Event
  -- The three parts of `Shutdown`.
  marks closes returns : Event

-- Without one occurrence of the connection; `none` if there is none.
unfoldable pub without : ℕ → List ℕ → Option (List ℕ)
without c [] = none
without c (d ∷ cs) =
    let rest = without c cs in
    if d == c then some cs else elim rest [ none ↦ none | some ds ↦ some (d ∷ ds) ]

unfoldable pub listen : Bool → Listener → Option Listener
listen succeeds l = elim l.loop [
  | starting ↦
      if succeeds
      then some (record l { socket = open_socket; loop = accepting })
      else some (record l { loop = stopped false })
  | _ ↦ none
]

-- A connection comes from an open socket only.
unfoldable pub accept : ℕ → Listener → Option Listener
accept c l = elim l.loop [
  | accepting ↦ elim l.socket [ open_socket ↦ some (record l { loop = holding c }) | _ ↦ none ]
  | _ ↦ none
]

unfoldable pub accept_error : Listener → Option Listener
accept_error l = elim l.loop [
  | accepting ↦ if l.closing then some (record l { loop = stopped true }) else some l
  | _ ↦ none
]

unfoldable pub start_handler : Listener → Option Listener
start_handler l = elim l.loop [
  | holding c ↦ some (record l { loop = accepting; handlers = c ∷ l.handlers })
  | _ ↦ none
]

unfoldable pub end_handler : ℕ → Listener → Option Listener
unfolding without
end_handler c l = elim (without c l.handlers) [
  | none ↦ none
  | some cs ↦ some (record l { handlers = cs })
]

unfoldable pub mark_closing : Listener → Option Listener
mark_closing l = elim l.phase [
  | not_called ↦ some (record l { phase = marked; closing = true })
  | _ ↦ none
]

unfoldable pub close_socket : Socket → Socket
close_socket absent = absent
close_socket _ = closed_socket

unfoldable pub close_listener : Listener → Option Listener
unfolding close_socket
close_listener l = elim l.phase [
  | marked ↦ some (record l { phase = waiting; socket = close_socket l.socket })
  | _ ↦ none
]

-- `wg.Wait` returns once no handler is counted.
unfoldable pub finish_wait : Listener → Option Listener
finish_wait l = elim l.phase [
  | waiting ↦ elim l.handlers [ [] ↦ some (record l { phase = returned }) | _ ∷ _ ↦ none ]
  | _ ↦ none
]

-- What an event makes of the state; `none` if it cannot occur in it.
unfoldable pub occur : Event → Listener → Option Listener
unfolding listen accept accept_error start_handler end_handler mark_closing close_listener
    finish_wait
occur (listens succeeds) l = listen succeeds l
occur (accepts c) l = accept c l
occur accept_fails l = accept_error l
occur starts l = start_handler l
occur (ends c) l = end_handler c l
occur marks l = mark_closing l
occur closes l = close_listener l
occur returns l = finish_wait l

unfoldable pub run : List Event → Listener → Option Listener
unfolding occur
run [] l = some l
run (e ∷ es) l = elim (occur e l) [ none ↦ none | some k ↦ run es k ]

abbrev pub new_listener : Listener
new_listener = record {
  socket = absent;
  loop = starting;
  closing = false;
  phase = not_called;
  handlers = [];
}
