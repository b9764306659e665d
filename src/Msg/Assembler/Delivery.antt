-- ===== src/Msg/Assembler/Delivery.antt =====
-- src/msg/msg_assembler.cpp, lines 73-109: what a connection makes of the bytes of a buffer that arrives.
use commutil.Common.{
  ℕ, suc, ◌+◌, ◌-◌, ◌*◌, ◌<◌, ◌≡◌, refl, sym, ap, ◌∙◌, none, some, List, [], ◌∷◌, ◌++◌,
  append_assoc, flatten, arith, length, take, drop, u32_mod, length-append, length-take,
  take-append-drop, take_add, ◌≤◌,
}
use commutil.Err.{ok}
use commutil.Io.Bytes.{ByteOrder}
use commutil.Io.Segmented.{SegmentedInputStream, append_buffer}
use commutil.Io.Segmented.Copy.{contents, IsValid}
use commutil.Io.Segmented.Read.{segmented_input, append_buffer_lem}
use commutil.Msg.Header.{header_size}
use commutil.Msg.Header.Codec.{header_bytes, length-header_bytes}
use commutil.Msg.Message.{Msg, Allocate}
use commutil.Msg.Assembler.{MsgListener, Assembly, dispatch, assemble, receive}
use commutil.Msg.Assembler.Wire.{IsFrame}
use commutil.Msg.Assembler.Rounds.{delivered, body_waits, loop_stops}
use commutil.Msg.Assembler.Sequence.{
  Position, tail_bytes, wire, Stops, Complete, At, all_dispatched, rounds_for, after_body,
  wire-Ends,
}

-- The bytes of a message that comes in two parts.
rejoined :
    (k : ℕ) (h payload rest : List ℕ)
    → (h ++ take k payload) ++ (drop k payload ++ rest) ≡ (h ++ payload) ++ rest
rejoined k h payload rest =
    append_assoc h (take k payload) (drop k payload ++ rest)
    ∙ ap (λ bs. h ++ bs)
        (sym (append_assoc (take k payload) (drop k payload) rest)
          ∙ ap (λ bs. bs ++ rest) (take-append-drop k payload))
    ∙ sym (append_assoc h payload rest)

regrown :
    (k j : ℕ) (h payload : List ℕ)
    → (h ++ take k payload) ++ take j (drop k payload) ≡ h ++ take (k + j) payload
regrown k j h payload =
    append_assoc h (take k payload) (take j (drop k payload))
    ∙ ap (λ bs. h ++ bs) (sym (take_add k j payload))

frame_so_far :
    (o : ByteOrder) (m : Msg) (k : ℕ) (s : SegmentedInputStream)
    → IsFrame m
    → IsValid s
    → contents s ≡ header_bytes o m.header ++ take k m.payload
    → (header_size ≤ s.size) × (s.size ≤ header_size + k)
frame_so_far o m k s f v c =
    (omega (arith, sum, length-take k m.payload), omega (arith, sum, length-take k m.payload))
  where
    sum : s.size ≡ header_size + length (take k m.payload)
    sum = omega (
      arith,
      v.counted,
      ap length c,
      length-append (header_bytes o m.header) (take k m.payload),
      length-header_bytes o m.header f.widths,
    )

one_more : (rounds r : ℕ) → 1 ≤ rounds → rounds - 1 ≡ r → rounds ≡ suc r
one_more rounds r h e = omega arith

rounds_split :
    (ms : List Msg) (rounds : ℕ) → 2 * length ms + 2 ≤ rounds → (r : ℕ) × (rounds ≡ rounds_for ms r)
rounds_split [] rounds h = (rounds - 2, omega arith)
rounds_split (m ∷ ms) rounds h =
    let (r, e) = rounds_split ms (rounds - 2) (omega arith) in (r, omega (arith, e))

-- What a buffer brings to a connection at a position: it completes the message that is under way, if
-- there is one, brings other messages, and ends at a new position; or it ends within the message
-- that is under way.
pub data Brings (o : ByteOrder) : Position → List ℕ → List Msg → Position → Type 0 where
  from_boundary : (ms : List Msg) (p : Position) → Brings o none (wire o ms ++ tail_bytes o p) ms p
  completes :
      (m : Msg) (k : ℕ) (ms : List Msg) (p : Position)
      → Brings o (some (m, k)) (drop k m.payload ++ (wire o ms ++ tail_bytes o p)) (m ∷ ms) p
  goes_on :
      (m : Msg) (k j : ℕ) → Brings o (some (m, k)) (take j (drop k m.payload)) [] (some (m, k + j))

module _ {L : Type 0} (listener : MsgListener L) (new : Allocate) (connection : ℕ) where
  -- The connection with a buffer behind what it holds.
  abbrev appended : List ℕ → Assembly L → Assembly L
  appended buffer a = record a {
    stream = record (a.stream) { is = append_buffer buffer (a.stream.is) };
  }

  abbrev pub Receives : ℕ → ByteOrder → List ℕ → List Msg → Position → Assembly L → Type 0
  Receives rounds o buffer ms p a =
      (b : Assembly L) × (receive listener new connection rounds buffer a ≡ some (ok tt b))
      × At o p b
      × ((b.user, b.freed) ≡ all_dispatched listener new connection ms a.user a.freed)

  -- A buffer that arrives at a connection dispatches the messages that it completes, in order and each
  -- once, frees those that the listener gives back, and leaves the connection at the position where
  -- the bytes end; the loop is over after two rounds for each message and two more. This holds where
  -- the bytes end neither within a header nor with an empty payload, each message has a header of its
  -- own with the magic word, there is memory for it, and the bytes held fit in 32 bits.
  pub receive_lem :
      {o : ByteOrder} {p p' : Position} {buffer : List ℕ} {ms : List Msg} (rounds : ℕ)
      (a : Assembly L)
      → At o p a
      → Stops p
      → Stops p'
      → Brings o p buffer ms p'
      → Complete new o ms p'
      → length (flatten a.stream.is.segments) + length buffer < u32_mod
      → 2 * length ms + 2 ≤ rounds
      → Receives rounds o buffer ms p' a
  unfolding receive append_buffer all_dispatched
  receive_lem {o} rounds a at stops stops' (from_boundary ms p) complete fits enough =
      let (valid, held, owned) = append_buffer_lem _ a.stream.is at.valid fits in
      let (r, e) = rounds_split ms rounds enough in
      let (b, ends, there, heard) =
        wire-Ends listener new connection o p r ms (appended (wire o ms ++ tail_bytes o p) a)
          complete stops' at.expects valid at.order
          (held ∙ ap (λ bs. bs ++ (wire o ms ++ tail_bytes o p)) at.held) in
      (
        b,
        ap (λ n. assemble listener new connection n (appended (wire o ms ++ tail_bytes o p) a)) e
            ∙ ends,
        there,
        heard,
      )
  receive_lem {o} rounds a at stops stops' (completes m k ms p) complete fits enough =
      let buffer = drop k m.payload ++ (wire o ms ++ tail_bytes o p) in
      let (valid, held, owned) = append_buffer_lem _ a.stream.is at.valid fits in
      let (r, e) = rounds_split ms (rounds - 1) (omega arith) in
      let (b, ends, there, heard) =
        after_body listener new connection o p (rounds_for ms r) m ms (appended buffer a) complete
          at.expects valid at.order
          (held
            ∙ ap (λ bs. bs ++ buffer) at.held
            ∙ rejoined k (header_bytes o m.header) m.payload (wire o ms ++ tail_bytes o p))
          (λ t (valid, left, same).
            wire-Ends listener new connection o p r ms
              (delivered listener new connection m t (appended buffer a)) complete.3 stops'
              (unfold dispatch in refl) valid (same ∙ at.order) left) in
      (
        b,
        ap (λ n. assemble listener new connection n (appended buffer a))
              (one_more rounds (rounds_for ms r) (omega arith) e)
            ∙ ends,
        there,
        heard,
      )
  receive_lem {o} rounds a at stops stops' (goes_on m k j) complete fits enough =
      let buffer = take j (drop k m.payload) in
      let (valid, held, owned) = append_buffer_lem _ a.stream.is at.valid fits in
      let bytes =
        held ∙ ap (λ bs. bs ++ buffer) at.held ∙ regrown k j (header_bytes o m.header) m.payload in
      let size =
        frame_so_far o m (k + j) (append_buffer buffer (a.stream.is)) stops'.0 valid bytes in
      (
        appended buffer a,
        ap (λ n. assemble listener new connection n (appended buffer a))
              (one_more rounds (rounds - 1) (omega arith) refl)
            ∙ loop_stops listener new connection (rounds - 1) (appended buffer a)
                (appended buffer a) (omega (arith, size))
                (body_waits listener new connection (appended buffer a) at.expects.0
                  (omega (arith, size, ap (λ h. h.length) at.expects.1, stops'.0.sized))),
        record { valid = valid; order = at.order; held = bytes; expects = at.expects },
        refl,
      )
