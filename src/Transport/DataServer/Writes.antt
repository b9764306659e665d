-- ===== src/Transport/DataServer/Writes.antt =====
-- src/transport/data_server.cpp, lines 180-237 and 354-374: the callbacks of libuv, and the memory that they free.
use commutil.Common.{
  ℕ, suc, ◌<◌, ◌≡◌, ◌≢◌, refl, sym, ap, ◌∙◌, Bool, true, false, none, some, List, ◌∷◌, arith,
}
use commutil.Err.{ok}
use commutil.Transport.Memory.{
  Block, buffer_data, async_request, Memory, find, remove, find-head, find-behind, remove-head,
  remove-behind, free_live, replace-head,
}
use commutil.Transport.Loop.{ℤ, DataListener}
use commutil.Transport.DataServer.{DataServer, ConnectionData, connection_at}
use commutil.Transport.DataServer.Send.{
  on_async_write, on_close_async_write_req, free_buffer, on_write,
}
use commutil.Transport.DataServer.Sending.{holding, queued}

free_buffer_lem :
    (address : ℕ) (rest : List (ℕ × Block)) (s : DataServer)
    → remove address s.memory.live ≡ some rest
    → free_buffer (some address) s ≡ ok tt (holding (record (s.memory) { live = rest }) s)
unfolding free_buffer
free_buffer_lem address rest s e = rw (free_live address rest s.memory e, free_buffer)

close_lem :
    (request : ℕ) (rest : List (ℕ × Block)) (s : DataServer)
    → remove request s.memory.live ≡ some rest
    → on_close_async_write_req request s ≡ ok tt (holding (record (s.memory) { live = rest }) s)
unfolding on_close_async_write_req
close_lem request rest s e = rw (free_live request rest s.memory e, on_close_async_write_req)

-- What is left of the memory when a buffer at an address was written.
abbrev pub LeftOf : Bool → ℕ → List (ℕ × Block) → List (ℕ × Block) → Type 0
LeftOf true address live rest = remove address live ≡ some rest
LeftOf false address live rest = rest ≡ live

free_none : (s : DataServer) → free_buffer none s ≡ ok tt s
unfolding free_buffer
free_none s = refl

LeftOf-behind :
    (dispose : Bool) (address j : ℕ) (b : Block) (live rest : List (ℕ × Block))
    → j ≢ address
    → LeftOf dispose address live rest
    → LeftOf dispose address ((j, b) ∷ live) ((j, b) ∷ rest)
LeftOf-behind true address j b live rest h left = remove-behind address j b live rest h left
LeftOf-behind false address j b live rest h left = ap (λ bs. (j, b) ∷ bs) left

module _ {L : Type 0} (listener : DataListener L) (connection : ℕ) (c : ConnectionData) where
  on_write_lem :
      (entry address n : ℕ) (dispose : Bool) (status : ℤ) (user : L) (live rest : List (ℕ × Block))
      (s : DataServer)
      → connection_at connection s ≡ some c
      → find entry s.memory.live ≡ some (buffer_data connection address n dispose)
      → LeftOf dispose address s.memory.live live
      → remove entry live ≡ some rest
      → (on_write listener entry status (user, s)).1
        ≡ ok tt (holding (record (s.memory) { live = rest }) s)
  unfolding on_write
  on_write_lem entry address n true status user live rest s at found freed taken =
      (rw (found, on_write, at, free_buffer_lem address live s freed))
      ∙ free_buffer_lem entry rest (holding (record (s.memory) { live = live }) s) taken
  on_write_lem entry address n false status user live rest s at found same taken =
      (rw (found, on_write, at, free_none s))
      ∙ free_buffer_lem entry rest s (ap (remove entry) (sym same) ∙ taken)

  -- Both callbacks, in the one order and in the other.
  abbrev pub Settles : ℕ → ℕ → ℤ → L → DataServer → DataServer → Type 0
  Settles request entry status user s settled =
      ((t : DataServer) × ((on_write listener entry status (user, s)).1 ≡ ok tt t)
        × (on_close_async_write_req request t ≡ ok tt settled))
      × ((t : DataServer) × (on_close_async_write_req request s ≡ ok tt t)
          × ((on_write listener entry status (user, t)).1 ≡ ok tt settled))

  module _ (address n : ℕ) (dispose : Bool) (m : Memory) where
    abbrev bd : Block
    bd = buffer_data connection address n dispose

    -- The memory after the request was taken up, with other objects behind it.
    abbrev taken_up : List (ℕ × Block) → Memory
    taken_up live = record {
      next = suc (suc m.next);
      live = (suc m.next, async_request none) ∷ (m.next, bd) ∷ live;
    }

    abbrev closed : List (ℕ × Block) → Memory
    closed live = record { next = suc (suc m.next); live = (m.next, bd) ∷ live }

    abbrev written : List (ℕ × Block) → Memory
    written rest = record {
      next = suc (suc m.next);
      live = (suc m.next, async_request none) ∷ rest;
    }

    -- When a queued buffer is written, the data of the buffer and the request are freed, and the buffer
    -- exactly if that was asked for, whichever of the callbacks of libuv comes first, and whether
    -- the write failed or not; nothing is freed twice and nothing else is freed.
    pub on_write-Settles :
        (status : ℤ) (user : L) (rest : List (ℕ × Block)) (s : DataServer)
        → connection_at connection s ≡ some c
        → address < m.next
        → LeftOf dispose address m.live rest
        → (t : DataServer) × (on_async_write
              (suc m.next)
              (holding (queued connection address n dispose m) s)
            ≡ ok tt t)
          × Settles
              (suc m.next)
              m.next
              status
              user
              t
              (holding (record { next = suc (suc m.next); live = rest }) s)
    unfolding on_async_write
    on_write-Settles status user rest s at old left = (
      holding (taken_up m.live) s,
      rw (
        find-head (suc m.next) (async_request (some m.next)) ((m.next, bd) ∷ m.live),
        on_async_write,
        replace-head (suc m.next) (async_request (some m.next)) (async_request none)
            ((m.next, bd) ∷ m.live),
      ),
      (
        (
          holding (written rest) s,
          on_write_lem m.next address n dispose status user
              ((suc m.next, async_request none) ∷ (m.next, bd) ∷ rest)
              ((suc m.next, async_request none) ∷ rest) (holding (taken_up m.live) s)
              (same_connection (taken_up m.live))
              (find-behind m.next (suc m.next) (async_request none) ((m.next, bd) ∷ m.live)
                  request_differs
                ∙ find-head m.next bd m.live)
              (LeftOf-behind dispose address (suc m.next) (async_request none)
                ((m.next, bd) ∷ m.live) ((m.next, bd) ∷ rest) request_old
                (LeftOf-behind dispose address m.next bd m.live rest data_old left))
              (remove-behind m.next (suc m.next) (async_request none) ((m.next, bd) ∷ rest) rest
                request_differs (remove-head m.next bd rest)),
          close_lem (suc m.next) rest (holding (written rest) s)
              (remove-head (suc m.next) (async_request none) rest),
        ),
        (
          holding (closed m.live) s,
          close_lem (suc m.next) ((m.next, bd) ∷ m.live) (holding (taken_up m.live) s)
              (remove-head (suc m.next) (async_request none) ((m.next, bd) ∷ m.live)),
          on_write_lem m.next address n dispose status user ((m.next, bd) ∷ rest) rest
              (holding (closed m.live) s) (same_connection (closed m.live))
              (find-head m.next bd m.live)
              (LeftOf-behind dispose address m.next bd m.live rest data_old left)
              (remove-head m.next bd rest),
        ),
      ),
    )
      where
        same_connection : (other : Memory) → connection_at connection (holding other s) ≡ some c
        same_connection other = unfold connection_at in at

        request_differs : suc m.next ≢ m.next
        request_differs = omega arith

        data_old : m.next ≢ address
        data_old = omega (arith, old)

        request_old : suc m.next ≢ address
        request_old = omega (arith, old)
