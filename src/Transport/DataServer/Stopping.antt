-- ===== src/Transport/DataServer/Stopping.antt =====
-- src/transport/data_server.cpp, lines 78-99, and src/transport/transport.cpp, lines 46-110: a running server is stopped.
use commutil.Common.{
  ℕ, ◌≡◌, ◌⊎◌, inl, inr, refl, ap, Bool, true, false, [], arith, ◌==◌, Bool-cases,
}
use commutil.Err.{ErrorCode, e_nomem, e_invalid_state, e_transport_error, Out, ok, err}
use commutil.Transport.Loop.{Platform, Loop, succeeds, stop_transport_loop}
use commutil.Transport.DataServer.{
  DataServer, RunState, rs_idle, rs_running, rs_shutting_down, state_number, change_run_state,
  initialize, stop, state_number,
}
use commutil.Transport.DataServer.States.{wrong_state}

-- The loop is closed, or an error is returned.
abbrev Stopped : Out Loop (Unit {0}) → Type 0
Stopped out =
    ((l : Loop) × (out ≡ ok tt l) × (l.is_open ≡ false))
    ⊎ ((e : ErrorCode) × (l : Loop) × (out ≡ err e l))

stop_transport_loop-Stopped :
    (platform : Platform) (l : Loop)
    → l.has_thread ≡ true
    → Stopped (stop_transport_loop platform true l)
unfolding stop_transport_loop
stop_transport_loop-Stopped platform l thread = elim (Bool-cases platform.callback_room) [
  | inr fails ↦ inr (e_nomem, l, rw (fails))
  | inl room ↦ elim (Bool-cases platform.async_init) [
    | inr fails ↦ inr (e_transport_error, l, rw (room, fails))
    | inl inits ↦ elim (Bool-cases platform.async_send) [
      | inr fails ↦ inr (e_transport_error, l, rw (room, inits, fails))
      | inl sends ↦ elim (Bool-cases platform.loop_close) [
        | inr fails ↦ inr (
          e_transport_error,
          record l { has_thread = false },
          rw (room, inits, sends, fails, thread),
        )
        | inl closes ↦ inl (
          record { is_open = false; has_thread = false },
          rw (room, inits, sends, closes, thread),
          refl,
        )
      ]
    ]
  ]
]

-- What a server that was not stopped refuses.
abbrev pub Stuck : DataServer → Type 0
Stuck t =
    (t.run_state ≡ rs_shutting_down)
    × ((p : Platform) (array : Bool) (room : ℕ → Bool) (n : ℕ)
        → initialize p array room n t ≡ err e_invalid_state t)
    × ((p : Platform) → stop p t ≡ err e_invalid_state t)

module _ (platform : Platform) (s : DataServer) (running : s.run_state ≡ rs_running)
    (thread : s.server_loop.has_thread ≡ true) where
  runs : (state_number s.run_state == 2) ≡ true
  runs = ap (λ q. state_number q == 2) running

  changes :
      change_run_state rs_running rs_shutting_down s
      ≡ (true, record s { run_state = rs_shutting_down })
  unfolding change_run_state
  changes = rw (runs)

  -- The server with a loop, in a state.
  abbrev turned : RunState → Loop → DataServer
  turned q l = record s { run_state = q; server_loop = l }

  stop_cases :
      ((l : Loop) × (stop platform s ≡ ok tt (turned rs_idle l)) × (l.is_open ≡ false))
      ⊎ ((e : ErrorCode) × (l : Loop) × (stop platform s ≡ err e (turned rs_shutting_down l)))
  unfolding stop
  stop_cases = elim (stop_transport_loop-Stopped platform s.server_loop thread) [
    | inr (e, l, run) ↦ inr (e, l, rw (runs, run, changes))
    | inl (l, run, closed) ↦ elim (Bool-cases (succeeds (platform.stop_transport))) [
      | inl succeeded ↦ inl (l, rw (runs, run, succeeded, changes), closed)
      | inr fails ↦ inr (platform.stop_transport, l, rw (runs, run, fails, changes))
    ]
  ]

  -- Stopping a running server that has a thread ends, with the server idle and its loop closed, or
  -- with an error; after an error it can neither be stopped again nor initialized.
  pub stop_lem :
      ((t : DataServer) × (stop platform s ≡ ok tt t)
        × (t.run_state ≡ rs_idle)
        × (t.server_loop.is_open ≡ false))
      ⊎ ((e : ErrorCode) × (t : DataServer) × (stop platform s ≡ err e t) × Stuck t)
  stop_lem = elim stop_cases [
    | inl (l, run, closed) ↦ inl (turned rs_idle l, run, refl, closed)
    | inr (e, l, run) ↦ inr (e, turned rs_shutting_down l, run, stuck l)
  ]
    where
      stuck : (l : Loop) → Stuck (turned rs_shutting_down l)
      stuck l = (
        refl,
        (λ p array room n.
            (wrong_state p array room n 0 0 [] 0 (turned rs_shutting_down l)).0
              (λ e. absurd (omega (arith, ap state_number e)))),
        (λ p.
            ((wrong_state p true (λ n. true) 0 0 0 [] 0 (turned rs_shutting_down l)).1
              (λ e. absurd (omega (arith, ap state_number e)))).0),
      )
