-- ===== src/Transport/DataServer/Connections.antt =====
-- src/transport/data_server.cpp, lines 285-297: an entry of the array for a new connection.
use commutil.Common.{
  ℕ, zero, suc, ◌+◌, ◌<◌, ◌≡◌, ◌⊎◌, inl, inr, refl, sym, ap, ◌∙◌, true, false, Option, none, some,
  List, arith, length, get_elem?, set, add64, ◌==◌, Bool-cases, get_elem?-total,
}
use mathlib.Core.Path.{subst}
use commutil.Err.{Out, ok}
use commutil.Transport.DataServer.{
  DataServer, ConnectionData, used_by, connection_at, grab_from, grab_connection_data,
}

-- The array has as many entries as the server counts.
abbrev pub Sized : DataServer → List ConnectionData → Type 0
Sized s connections =
    (s.conn_data_array ≡ some connections) × (length connections ≡ s.max_connections)

abbrev pub InUse : List ConnectionData → ℕ → Type 0
InUse connections i =
    (c : ConnectionData) → get_elem? connections i ≡ some c → (c.is_used == 0) ≡ false

-- The first entry that is not in use is taken, with the next id, and nothing else changes.
abbrev pub TakesFirst : DataServer → List ConnectionData → Out DataServer (Option ℕ) → Type 0
TakesFirst s connections out =
    (i : ℕ) × (c : ConnectionData) × (get_elem? connections i ≡ some c)
    × (c.is_used ≡ 0)
    × ((j : ℕ) → j < i → InUse connections j)
    × (out
        ≡ ok (some i) (record s {
          conn_data_array = some (set connections i (used_by s.next_connection_id c));
          next_connection_id = add64 s.next_connection_id 1;
        }))

abbrev Grabs : DataServer → List ConnectionData → Out DataServer (Option ℕ) → Type 0
Grabs s connections out =
    TakesFirst s connections out
    ⊎ (((j : ℕ) → j < length connections → InUse connections j) × (out ≡ ok none s))

module _ (s : DataServer) (connections : List ConnectionData)
    (array : s.conn_data_array ≡ some connections) where
  at_index : (i : ℕ) → connection_at i s ≡ get_elem? connections i
  unfolding connection_at
  at_index i = rw (array)

  take_entry :
      (rounds i : ℕ) (c : ConnectionData)
      → get_elem? connections i ≡ some c
      → (c.is_used == 0) ≡ true
      → grab_from (suc rounds) i s
        ≡ ok (some i) (record s {
          conn_data_array = some (set connections i (used_by s.next_connection_id c));
          next_connection_id = add64 s.next_connection_id 1;
        })
  unfolding grab_from
  take_entry rounds i c here vacant = rw (at_index i ∙ here, grab_from, vacant, array)

  pass_entry :
      (rounds i : ℕ) (c : ConnectionData)
      → get_elem? connections i ≡ some c
      → (c.is_used == 0) ≡ false
      → grab_from (suc rounds) i s ≡ grab_from rounds (i + 1) s
  unfolding grab_from
  pass_entry rounds i c here busy = rw (at_index i ∙ here, grab_from, busy)

  used_too :
      (i j : ℕ) (c : ConnectionData)
      → get_elem? connections i ≡ some c
      → (c.is_used == 0) ≡ false
      → ((k : ℕ) → k < i → InUse connections k)
      → j < i + 1
      → InUse connections j
  used_too i j c here busy used h = elim (below i j h) [
    | inl less ↦ used j less
    | inr same ↦ λ d at. busy_there d (ap (get_elem? connections) (sym same) ∙ at)
  ]
    where
      below : (i j : ℕ) → j < i + 1 → (j < i) ⊎ (j ≡ i)
      below i j h = grind arith

      busy_there :
          (d : ConnectionData) → get_elem? connections i ≡ some d → (d.is_used == 0) ≡ false
      busy_there d at = cc

  grab_from_lem :
      (rounds i : ℕ)
      → i + rounds ≡ length connections
      → ((j : ℕ) → j < i → InUse connections j)
      → Grabs s connections (grab_from rounds i s)
  grab_from_lem zero i e used =
      inr ((λ j h. used j (omega (arith, e, h))), unfold grab_from in refl)
  grab_from_lem (suc rounds) i e used =
      let (c, here) = get_elem?-total connections i (omega arith) in
      elim (Bool-cases (c.is_used == 0)) [
        | inl vacant ↦
            inl (i, c, here, is_zero c.is_used vacant, used, take_entry rounds i c here vacant)
        | inr busy ↦
            subst (Grabs s connections) (sym (pass_entry rounds i c here busy))
              (grab_from_lem rounds (i + 1) (omega arith) (λ j h. used_too i j c here busy used h))
      ]
    where
      is_zero : (n : ℕ) → (n == 0) ≡ true → n ≡ 0
      is_zero n h = ground arith

-- Where the array is there, its first entry that is not in use is taken for a new connection, with the
-- next id, and nothing else changes; or every entry is in use, and nothing changes.
pub grab_connection_data_lem :
    (s : DataServer) (connections : List ConnectionData)
    → Sized s connections
    → TakesFirst s connections (grab_connection_data s)
      ⊎ (((j : ℕ) → j < length connections → InUse connections j)
          × (grab_connection_data s ≡ ok none s))
unfolding grab_connection_data
grab_connection_data_lem s connections (array, size) =
    grab_from_lem s connections array s.max_connections 0 (omega (arith, size))
      (λ j h. absurd (omega (arith, h)))
