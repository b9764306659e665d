-- ===== src/Transport/DataServer/States.antt =====
-- src/transport/data_server.cpp, lines 14-109: the run state of the server.
use commutil.Common.{
  ℕ, zero, suc, ◌<◌, ◌≡◌, ◌≢◌, ◌⊎◌, inl, inr, refl, sym, ap, ◌∙◌, Bool, true, false, not, Option,
  none, some, List, [], ◌∷◌, ◌++◌, arith, length, get_elem?, length-append, ◌==◌, Bool-cases,
  get_elem?-snoc, get_elem?-snoc_last,
}
use commutil.Err.{ErrorCode, e_invalid_state, e_nomem, e_transport_error, Out, ok, err}
use commutil.Transport.Loop.{Platform, Loop, succeeds}
use commutil.Transport.DataServer.{
  RunState, rs_idle, rs_starting_up, rs_running, rs_shutting_down, DataServer, ConnectionData,
  vacant, state_number, change_run_state, set_run_state, make_connections, init_conn_data_array,
  term_conn_data_array, initialize, initialize_loop, stop,
}
use commutil.Transport.DataServer.Send.{reply_msg}

other_state : (q r : RunState) → q ≢ r → (state_number q == state_number r) ≡ false
other_state rs_idle rs_idle h = absurd (h refl)
other_state rs_idle rs_starting_up h = refl
other_state rs_idle rs_running h = refl
other_state rs_idle rs_shutting_down h = refl
other_state rs_starting_up rs_idle h = refl
other_state rs_starting_up rs_starting_up h = absurd (h refl)
other_state rs_starting_up rs_running h = refl
other_state rs_starting_up rs_shutting_down h = refl
other_state rs_running rs_idle h = refl
other_state rs_running rs_starting_up h = refl
other_state rs_running rs_running h = absurd (h refl)
other_state rs_running rs_shutting_down h = refl
other_state rs_shutting_down rs_idle h = refl
other_state rs_shutting_down rs_starting_up h = refl
other_state rs_shutting_down rs_running h = refl
other_state rs_shutting_down rs_shutting_down h = absurd (h refl)

-- A server that is not idle is not initialized, and one that is not running neither stopped nor used
-- for a reply: E_INVALID_STATE is returned, and nothing changes.
pub wrong_state :
    (platform : Platform) (array : Bool) (room : ℕ → Bool) (n connection buffer : ℕ)
    (bytes : List ℕ) (flags : ℕ) (s : DataServer)
    → (s.run_state ≢ rs_idle → initialize platform array room n s ≡ err e_invalid_state s)
      × (s.run_state ≢ rs_running
          → (stop platform s ≡ err e_invalid_state s)
            × (reply_msg platform room connection buffer bytes flags s ≡ err e_invalid_state s))
unfolding initialize stop change_run_state reply_msg
wrong_state platform array room n connection buffer bytes flags s = (
  (λ h. rw (initialize, other_state s.run_state rs_idle h)),
  (λ h. (
    rw (stop, other_state s.run_state rs_running h),
    rw (reply_msg, other_state s.run_state rs_running h),
  )),
)

-- The array has so many entries, each vacant and with its own index.
abbrev pub AllVacant : ℕ → List ConnectionData → Type 0
AllVacant n connections =
    (length connections ≡ n) × ((i : ℕ) → i < n → get_elem? connections i ≡ some (vacant i))

-- The entries are made, or there is no memory for one of them.
abbrev pub Makes : ℕ → Option (List ConnectionData) → Type 0
Makes n made =
    (made ≡ none)
    ⊎ ((connections : List ConnectionData) × (made ≡ some connections) × AllVacant n connections)

one_more :
    (n i : ℕ) (connections : List ConnectionData)
    → AllVacant n connections
    → i < suc n
    → get_elem? (connections ++ vacant n ∷ []) i ≡ some (vacant i)
one_more n i connections (size, each) h = elim (lt_suc i n h) [
  | inl below ↦ get_elem?-snoc connections (vacant n) i (omega (arith, size)) ∙ each i below
  | inr e ↦
      ap (get_elem? (connections ++ vacant n ∷ [])) (e ∙ sym size)
      ∙ get_elem?-snoc_last connections (vacant n)
      ∙ ap (λ k. some (vacant k)) (sym e)
]
  where
    lt_suc : (i n : ℕ) → i < suc n → (i < n) ⊎ (i ≡ n)
    lt_suc i n h = grind arith

make_connections-Makes : (room : ℕ → Bool) (n : ℕ) → Makes n (make_connections room n)
unfolding make_connections
make_connections-Makes room zero = inr ([], refl, (refl, λ i h. absurd (omega (arith, h))))
make_connections-Makes room (suc n) = elim (make_connections-Makes room n) [
  | inl e ↦ inl (rw (e))
  | inr (cs, e, all) ↦ elim (Bool-cases (room n)) [
    | inl r ↦ inr (
      cs ++ vacant n ∷ [],
      rw (e, r),
      (omega (arith, length-append cs (vacant n ∷ []), all.0), λ i h. one_more n i cs all h),
    )
    | inr r ↦ inl (rw (e, r))
  ]
]

-- The server is running, with a loop and the array.
abbrev pub Ready : ℕ → DataServer → Out DataServer (Unit {0}) → Type 0
Ready n s out =
    (connections : List ConnectionData) × (out
      ≡ ok tt (record s {
        run_state = rs_running;
        conn_data_array = some connections;
        max_connections = n;
        server_loop = record (s.server_loop) { is_open = true };
      }))
    × AllVacant n connections

-- The loop is as before; or it is open, since `uv_loop_close` failed after the transport did.
abbrev pub LoopAfter : Platform → Loop → Loop → Type 0
LoopAfter platform before after =
    (after ≡ before)
    ⊎ ((platform.loop_init ≡ true)
        × (succeeds (platform.initialize_transport) ≡ false)
        × (platform.loop_close ≡ false)
        × (after ≡ record before { is_open = true }))

-- The server is idle as before, without an array.
abbrev pub Undone : Platform → DataServer → Out DataServer (Unit {0}) → Type 0
Undone platform s out =
    (e : ErrorCode) × (t : DataServer) × (out ≡ err e t)
    × (t.run_state ≡ rs_idle)
    × (t.conn_data_array ≡ none)
    × LoopAfter platform s.server_loop t.server_loop
    × (t.memory ≡ s.memory)

module _ (platform : Platform) (array : Bool) (room : ℕ → Bool) (n : ℕ) (s : DataServer)
    (is_idle : s.run_state ≡ rs_idle) (closed : s.server_loop.is_open ≡ false) where
  idle : (state_number s.run_state == 0) ≡ true
  idle = ap (λ q. state_number q == 0) is_idle

  after_close :
      platform.loop_init ≡ true
      → succeeds (platform.initialize_transport) ≡ false
      → LoopAfter platform s.server_loop
          (record (s.server_loop) { is_open = not platform.loop_close })
  after_close opens failed = elim (Bool-cases platform.loop_close) [
    | inl closes ↦
        inl (ap (λ b. record (s.server_loop) { is_open = b }) (ap not closes ∙ sym closed))
    | inr busy ↦
        inr (opens, failed, busy, ap (λ b. record (s.server_loop) { is_open = not b }) busy)
  ]

  changes :
      change_run_state rs_idle rs_starting_up s ≡ (true, record s { run_state = rs_starting_up })
  unfolding change_run_state
  changes = rw (idle)

  no_array : array ≡ false → Undone platform s (initialize platform array room n s)
  unfolding initialize change_run_state init_conn_data_array set_run_state
  no_array e = (
    e_nomem,
    record s { run_state = rs_idle; conn_data_array = none },
    rw (idle, e),
    refl,
    refl,
    inl refl,
    refl,
  )

  no_entries :
      array ≡ true
      → make_connections room n ≡ none
      → Undone platform s (initialize platform array room n s)
  unfolding initialize change_run_state init_conn_data_array set_run_state
  no_entries e m = (
    e_nomem,
    record s { run_state = rs_idle; conn_data_array = none; max_connections = n },
    rw (idle, e, m, changes),
    refl,
    refl,
    inl refl,
    refl,
  )

  -- The server without its array.
  abbrev undone : Loop → DataServer
  undone l = record s {
    run_state = rs_idle;
    conn_data_array = none;
    max_connections = 0;
    server_loop = l;
  }

  with_array :
      (cs : List ConnectionData)
      → AllVacant n cs
      → array ≡ true
      → make_connections room n ≡ some cs
      → Ready n s (initialize platform array room n s)
        ⊎ Undone platform s (initialize platform array room n s)
  unfolding initialize change_run_state init_conn_data_array set_run_state initialize_loop
      term_conn_data_array
  with_array cs all e m = elim (Bool-cases platform.loop_init) [
    | inr fails ↦ inr (
      e_transport_error,
      undone s.server_loop,
      rw (idle, e, m, fails, changes),
      refl,
      refl,
      inl refl,
      refl,
    )
    | inl opens ↦ elim (Bool-cases (succeeds (platform.initialize_transport))) [
      | inl succeeded ↦ inl (cs, rw (idle, e, m, opens, succeeded, changes), all)
      | inr failed ↦ inr (
        platform.initialize_transport,
        undone (record (s.server_loop) { is_open = not platform.loop_close }),
        rw (idle, e, m, opens, failed, changes),
        refl,
        refl,
        after_close opens failed,
        refl,
      )
    ]
  ]

  -- The initialization of an idle server whose loop is closed either makes it run, with an array of so
  -- many vacant entries and an open loop; or it returns an error and leaves the server idle, without an
  -- array, the memory as before, and its loop closed, but open if libuv fails to close it after the
  -- transport failed to initialize.
  pub initialize_lem :
      Ready n s (initialize platform array room n s)
      ⊎ Undone platform s (initialize platform array room n s)
  initialize_lem = elim (Bool-cases array) [
    | inr e ↦ inr (no_array e)
    | inl e ↦ elim (make_connections-Makes room n) [
      | inl m ↦ inr (no_entries e m)
      | inr (cs, m, all) ↦ with_array cs all e m
    ]
  ]
