-- ===== src/Transport/Memory.antt =====
-- inc/transport/data_allocator.h: what the transport's allocator has given out and not got back.
use commutil.Common.{
  ℕ, suc, ◌≡◌, ◌≢◌, Bool, true, false, Option, none, some, List, [], ◌∷◌, arith, ◌==◌,
  if◌then◌else◌, ==_self,
}
use commutil.Err.{Out, ok, fault}

-- An object of one of the sorts that the allocator gives out: a request buffer with its bytes; what
-- goes with a buffer that is written (the connection, the buffer, its length, and whether it is
-- freed when it was written), which in a client has an address of the user in place of the
-- connection; and an asynchronous request with its data, if it is such an object.
pub data Block : Type 0 where
  request_buffer : List ℕ → Block
  buffer_data : ℕ → ℕ → ℕ → Bool → Block
  client_buffer_data : ℕ → ℕ → Bool → Option ℕ → Block
  async_request : Option ℕ → Block

-- `next` is the address of the next object.
pub record Memory : Type 0 where
  pub next : ℕ
  pub live : List (ℕ × Block)

-- An allocation, and its address; `room` says whether there is memory.
unfoldable pub allocate : (ℕ → Bool) → Block → Memory → Option ℕ × Memory
allocate room b m =
    let after = record m { next = suc m.next } in
    if room m.next
    then (some m.next, record after { live = (m.next, b) ∷ m.live })
    else (none, after)

unfoldable pub find : ℕ → List (ℕ × Block) → Option Block
find address [] = none
find address (entry ∷ rest) = if entry.0 == address then some entry.1 else find address rest

unfoldable pub remove : ℕ → List (ℕ × Block) → Option (List (ℕ × Block))
remove address [] = none
remove address (entry ∷ rest) =
    let others = remove address rest in
    if entry.0 == address
    then some rest
    else elim others [ none ↦ none | some more ↦ some (entry ∷ more) ]

-- To free what is not live has no defined behaviour.
unfoldable pub free : ℕ → Memory → Out Memory (Unit {0})
unfolding remove
free address m = elim (remove address m.live) [
  | none ↦ fault
  | some rest ↦ ok tt (record m { live = rest })
]

unfoldable pub replace : ℕ → Block → List (ℕ × Block) → List (ℕ × Block)
replace address b [] = []
replace address b (entry ∷ rest) =
    if entry.0 == address then (address, b) ∷ rest else entry ∷ replace address b rest

-- The bytes of a request buffer.
unfoldable pub bytes_at : ℕ → Memory → Option (List ℕ)
unfolding find
bytes_at address m = elim (find address m.live) [
  | some (request_buffer bytes) ↦ some bytes
  | _ ↦ none
]

pub other_address : (i j : ℕ) → i ≢ j → (i == j) ≡ false
other_address i j h = ground arith

pub find-head : (i : ℕ) (b : Block) (rest : List (ℕ × Block)) → find i ((i, b) ∷ rest) ≡ some b
unfolding find
find-head i b rest = rw (==_self i)

pub find-behind :
    (i j : ℕ) (b : Block) (rest : List (ℕ × Block)) → j ≢ i → find i ((j, b) ∷ rest) ≡ find i rest
unfolding find
find-behind i j b rest h = rw (other_address j i h)

pub remove-head :
    (i : ℕ) (b : Block) (rest : List (ℕ × Block)) → remove i ((i, b) ∷ rest) ≡ some rest
unfolding remove
remove-head i b rest = rw (==_self i)

pub remove-behind :
    (i j : ℕ) (b : Block) (rest more : List (ℕ × Block))
    → j ≢ i
    → remove i rest ≡ some more
    → remove i ((j, b) ∷ rest) ≡ some ((j, b) ∷ more)
unfolding remove
remove-behind i j b rest more h e = rw (other_address j i h, e)

pub allocate-full :
    (room : ℕ → Bool) (b : Block) (m : Memory)
    → room m.next ≡ false
    → allocate room b m ≡ (none, record { next = suc m.next; live = m.live })
unfolding allocate
allocate-full room b m e = rw (e)

pub allocate-room :
    (room : ℕ → Bool) (b : Block) (m : Memory)
    → room m.next ≡ true
    → allocate room b m ≡ (some m.next, record { next = suc m.next; live = (m.next, b) ∷ m.live })
unfolding allocate
allocate-room room b m e = rw (e)

pub free-head :
    (i next : ℕ) (b : Block) (rest : List (ℕ × Block))
    → free i (record { next = next; live = (i, b) ∷ rest })
      ≡ ok tt (record { next = next; live = rest })
unfolding free
free-head i next b rest = rw (remove-head i b rest, free)

pub replace-head :
    (i : ℕ) (b c : Block) (rest : List (ℕ × Block)) → replace i c ((i, b) ∷ rest) ≡ (i, c) ∷ rest
unfolding replace
replace-head i b c rest = rw (==_self i)

pub free_live :
    (i : ℕ) (rest : List (ℕ × Block)) (m : Memory)
    → remove i m.live ≡ some rest
    → free i m ≡ ok tt (record m { live = rest })
unfolding free
free_live i rest m e = rw (e, free)
