-- ===== src/Server/Listener/Reach.antt =====
-- What holds in every state of the listener that a new one reaches.
use zx909_gw.Prelude.{
  ℕ, suc, ◌+◌, ◌≤◌, ◌≡◌, ◌≢◌, refl, ◌∙◌, sym, inl, inr, ◌⊎◌, Bool, true, false, List, [], ◌∷◌, some,
  arith, length, Option-cases,
}
use zx909_gw.Server.Listener.{
  Socket, absent, open_socket, closed_socket, Loop, starting, accepting, holding, stopped, Phase,
  not_called, marked, waiting, returned, Listener, Event, listens, accepts, accept_fails, starts,
  ends, marks, closes, returns, without, listen, accept, accept_error, start_handler, end_handler,
  mark_closing, close_socket, close_listener, finish_wait, occur, run, new_listener,
}
use zx909_gw.Server.Listener.Stops.{IsPast, IsServing, transfer, length-without, run-first}

-- Whether a connection has been accepted whose handler is not started yet.
abbrev pub held : Loop → ℕ
held (holding c) = 1
held _ = 0

pub record IsSound (l : Listener) : Type 0 where
  pub begun : (l.socket ≡ absent) ⊎ IsServing l.loop
  pub closing_first : l.phase ≢ not_called → l.closing ≡ true
  pub closed_last : l.socket ≡ closed_socket → IsPast l.phase
  pub late : l.socket ≡ closed_socket → l.phase ≡ returned → length l.handlers + held l.loop ≤ 1

held_one : (lo : Loop) → 0 + held lo ≤ 1
held_one starting = omega arith
held_one accepting = omega arith
held_one (holding c) = omega arith
held_one (stopped r) = omega arith

-- The state with these parts.
abbrev state : Socket → Loop → Bool → Phase → List ℕ → Listener
state so lo cl ph hs = record { socket = so; loop = lo; closing = cl; phase = ph; handlers = hs }

end_handler-IsSound :
    (c : ℕ) (so : Socket) (lo : Loop) (cl : Bool) (ph : Phase) (hs : List ℕ) (k : Listener)
    → IsSound (state so lo cl ph hs)
    → end_handler c (state so lo cl ph hs) ≡ some k
    → IsSound k
unfolding end_handler
end_handler-IsSound c so lo cl ph hs k v h = elim (Option-cases (without c hs)) [
  | inl gone ↦ absurd (ground arith)
  | inr (ds, e) ↦
      let shorter : length hs ≡ suc (length ds) = length-without c hs ds e in
      transfer IsSound {x = state so lo cl ph ds} (sym (rw e) ∙ h) (record {
        begun = v.begun;
        closing_first = v.closing_first;
        closed_last = v.closed_last;
        late = λ e r. let bound = v.late e r in omega arith;
      })
]

mark_closing-IsSound :
    (so : Socket) (lo : Loop) (cl : Bool) (ph : Phase) (hs : List ℕ) (k : Listener)
    → IsSound (state so lo cl ph hs)
    → mark_closing (state so lo cl ph hs) ≡ some k
    → IsSound k
unfolding mark_closing
mark_closing-IsSound so lo cl not_called hs k v h = transfer IsSound h (record {
  begun = v.begun;
  closing_first = λ e. refl;
  closed_last = λ e. let past = v.closed_last e in absurd (ground arith);
  late = λ e. cc;
})
mark_closing-IsSound so lo cl marked hs k v h = cc
mark_closing-IsSound so lo cl waiting hs k v h = cc
mark_closing-IsSound so lo cl returned hs k v h = cc

close_listener-IsSound :
    (so : Socket) (lo : Loop) (cl : Bool) (ph : Phase) (hs : List ℕ) (k : Listener)
    → IsSound (state so lo cl ph hs)
    → close_listener (state so lo cl ph hs) ≡ some k
    → IsSound k
unfolding close_listener close_socket
close_listener-IsSound absent lo cl marked hs k v h = transfer IsSound h (record {
  begun = v.begun;
  closing_first = λ e. v.closing_first (λ e. cc);
  closed_last = λ e. cc;
  late = λ e. cc;
})
close_listener-IsSound open_socket lo cl marked hs k v h = transfer IsSound h (record {
  begun = elim v.begun [ inl none_yet ↦ cc | inr serving ↦ inr serving ];
  closing_first = λ e. v.closing_first (λ e. cc);
  closed_last = λ e. inl refl;
  late = λ e r. cc;
})
close_listener-IsSound closed_socket lo cl marked hs k v h =
    let past = v.closed_last refl in absurd (ground arith)
close_listener-IsSound so lo cl not_called hs k v h = cc
close_listener-IsSound so lo cl waiting hs k v h = cc
close_listener-IsSound so lo cl returned hs k v h = cc

finish_wait-IsSound :
    (so : Socket) (lo : Loop) (cl : Bool) (ph : Phase) (hs : List ℕ) (k : Listener)
    → IsSound (state so lo cl ph hs)
    → finish_wait (state so lo cl ph hs) ≡ some k
    → IsSound k
unfolding finish_wait
finish_wait-IsSound so lo cl waiting [] k v h = transfer IsSound h (record {
  begun = v.begun;
  closing_first = λ e. v.closing_first (λ e. cc);
  closed_last = λ e. inr refl;
  late = λ e r. held_one lo;
})
finish_wait-IsSound so lo cl waiting (c ∷ hs) k v h = cc
finish_wait-IsSound so lo cl not_called hs k v h = cc
finish_wait-IsSound so lo cl marked hs k v h = cc
finish_wait-IsSound so lo cl returned hs k v h = cc

pub occur-IsSound :
    (e : Event) (so : Socket) (lo : Loop) (cl : Bool) (ph : Phase) (hs : List ℕ) (k : Listener)
    → IsSound (state so lo cl ph hs)
    → occur e (state so lo cl ph hs) ≡ some k
    → IsSound k
unfolding occur listen accept accept_error start_handler
occur-IsSound (listens true) so starting cl ph hs k v h = transfer IsSound h (record {
  begun = inr (λ e. cc, λ e. cc);
  closing_first = v.closing_first;
  closed_last = λ e. cc;
  late = λ e. cc;
})
occur-IsSound (listens false) so starting cl ph hs k v h = transfer IsSound h (record {
  begun = inl (elim v.begun [ inl none_yet ↦ none_yet | inr serving ↦ absurd (serving.0 refl) ]);
  closing_first = v.closing_first;
  closed_last = v.closed_last;
  late = v.late;
})
occur-IsSound (listens b) so accepting cl ph hs k v h = cc
occur-IsSound (listens b) so (holding c) cl ph hs k v h = cc
occur-IsSound (listens b) so (stopped r) cl ph hs k v h = cc
occur-IsSound (accepts c) open_socket accepting cl ph hs k v h = transfer IsSound h (record {
  begun = inr (λ e. cc, λ e. cc);
  closing_first = v.closing_first;
  closed_last = λ e. cc;
  late = λ e. cc;
})
occur-IsSound (accepts c) absent accepting cl ph hs k v h = cc
occur-IsSound (accepts c) closed_socket accepting cl ph hs k v h = cc
occur-IsSound (accepts c) so starting cl ph hs k v h = cc
occur-IsSound (accepts c) so (holding d) cl ph hs k v h = cc
occur-IsSound (accepts c) so (stopped r) cl ph hs k v h = cc
occur-IsSound accept_fails so accepting true ph hs k v h = transfer IsSound h (record {
  begun = inr (λ e. cc, λ e. cc);
  closing_first = v.closing_first;
  closed_last = v.closed_last;
  late = v.late;
})
occur-IsSound accept_fails so accepting false ph hs k v h = transfer IsSound h v
occur-IsSound accept_fails so starting cl ph hs k v h = cc
occur-IsSound accept_fails so (holding d) cl ph hs k v h = cc
occur-IsSound accept_fails so (stopped r) cl ph hs k v h = cc
occur-IsSound starts so (holding d) cl ph hs k v h = transfer IsSound h (record {
  begun = inr (λ e. cc, λ e. cc);
  closing_first = v.closing_first;
  closed_last = v.closed_last;
  late = λ e r. let bound = v.late e r in omega arith;
})
occur-IsSound starts so starting cl ph hs k v h = cc
occur-IsSound starts so accepting cl ph hs k v h = cc
occur-IsSound starts so (stopped r) cl ph hs k v h = cc
occur-IsSound (ends c) so lo cl ph hs k v h = end_handler-IsSound c so lo cl ph hs k v h
occur-IsSound marks so lo cl ph hs k v h = mark_closing-IsSound so lo cl ph hs k v h
occur-IsSound closes so lo cl ph hs k v h = close_listener-IsSound so lo cl ph hs k v h
occur-IsSound returns so lo cl ph hs k v h = finish_wait-IsSound so lo cl ph hs k v h

pub run-IsSound : (es : List Event) (l t : Listener) → IsSound l → run es l ≡ some t → IsSound t
unfolding run
run-IsSound [] l t v h = transfer IsSound h v
run-IsSound (e ∷ es) l t v h =
    let (k, moved, later) = run-first e es l t h in
    run-IsSound es k t (occur-IsSound e l.socket l.loop l.closing l.phase l.handlers k v moved)
      later

pub new_listener-IsSound : IsSound new_listener
new_listener-IsSound = record {
  begun = inl refl;
  closing_first = λ e. absurd (e refl);
  closed_last = λ e. cc;
  late = λ e. cc;
}
