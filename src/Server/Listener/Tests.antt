-- ===== src/Server/Listener/Tests.antt =====
-- Concrete runs of the listener.
use zx909_gw.Prelude.{◌≡◌, refl, ◌+◌, ◌≤◌, true, List, [], ◌∷◌, some, length}
use zx909_gw.Server.Listener.{
  closed_socket, holding, stopped, waiting, returned, Listener, Event, listens, accepts,
  accept_fails, starts, ends, marks, closes, returns, without, run, new_listener,
}
use zx909_gw.Server.Listener.Stops.{Progress}
use zx909_gw.Server.Listener.Reach.{held}
use zx909_gw.Server.Listener.Shutdown.{shutdown-Progress, returned-late}

-- One handler runs and another connection has just been accepted when the socket is closed.
abbrev busy : List Event
busy = listens true ∷ accepts 1 ∷ starts ∷ accepts 2 ∷ marks ∷ closes ∷ []

abbrev busy_listener : Listener
busy_listener = record {
  socket = closed_socket;
  loop = holding 2;
  closing = true;
  phase = waiting;
  handlers = 1 ∷ [];
}

busy-reached : run busy new_listener ≡ some busy_listener
unfolding run
busy-reached = refl

-- The first handler ends, and `Shutdown` returns before the second one starts.
abbrev winding_down : List Event
winding_down = ends 1 ∷ returns ∷ starts ∷ accept_fails ∷ []

abbrev left_behind : Listener
left_behind = record {
  socket = closed_socket;
  loop = stopped true;
  closing = true;
  phase = returned;
  handlers = 2 ∷ [];
}

busy_winds_down : run winding_down busy_listener ≡ some left_behind
unfolding run without
busy_winds_down = refl

shutdown-Progress_example :
    (length winding_down ≤ length busy_listener.handlers + 4) × Progress left_behind
shutdown-Progress_example =
    shutdown-Progress busy winding_down busy_listener left_behind busy-reached refl busy_winds_down

abbrev whole_life : List Event
whole_life =
    listens true
    ∷ accepts 1
    ∷ starts
    ∷ accepts 2
    ∷ marks
    ∷ closes
    ∷ ends 1
    ∷ returns
    ∷ starts
    ∷ accept_fails
    ∷ []

whole_life-reached : run whole_life new_listener ≡ some left_behind
unfolding run without
whole_life-reached = refl

returned-late_example : length left_behind.handlers + held left_behind.loop ≤ 1
returned-late_example = returned-late whole_life left_behind whole_life-reached refl refl
