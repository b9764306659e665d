-- ===== src/Msg/Assembler/Sequence.antt =====
-- src/msg/msg_assembler.cpp, lines 84-105: the loop over a sequence of whole messages and the beginning of another.
use commutil.Common.{
  ℕ, suc, ◌+◌, ◌<◌, ◌≡◌, refl, ap, ◌∙◌, Option, none, some, List, [], ◌∷◌, ◌++◌, append_assoc,
  arith, length, take, if◌then◌else◌, length-append, length-take,
}
use commutil.Err.{ok}
use commutil.Io.Bytes.{ByteOrder}
use commutil.Io.Stream.{Leaves}
use commutil.Io.Segmented.{SegmentedInputStream}
use commutil.Io.Segmented.Copy.{contents, IsValid}
use commutil.Io.Segmented.Read.{segmented_input}
use commutil.Msg.Header.{header_size}
use commutil.Msg.Header.Codec.{header_bytes, length-header_bytes}
use commutil.Msg.Message.{Msg, Allocate}
use commutil.Msg.Frame.Single.{Gives}
use commutil.Msg.Assembler.{
  MsgListener, Assembly, ms_waiting_header, ms_waiting_body, can_delete, dispatch, assemble,
}
use commutil.Msg.Assembler.Wire.{IsFrame, frame_bytes, length-frame_bytes}
use commutil.Msg.Assembler.Rounds.{
  seen, delivered, header_round, body_round, body_waits, loop_more, loop_stops, loop_empty,
}

-- Where the bytes that have arrived end: between two messages, or after so many bytes of a payload.
abbrev pub Position : Type 0
Position = Option (Msg × ℕ)

module _ (o : ByteOrder) where
  abbrev pub tail_bytes : Position → List ℕ
  tail_bytes none = []
  tail_bytes (some (m, k)) = header_bytes o m.header ++ take k m.payload

  abbrev pub wire : List Msg → List ℕ
  wire [] = []
  wire (m ∷ ms) = frame_bytes o m ++ wire ms

-- The payload is not complete.
abbrev pub Stops : Position → Type 0
Stops none = Unit
Stops (some (m, k)) = IsFrame m × (k < length m.payload)

-- The messages can be received: each has a header of its own and memory, and the last is not an
-- empty one at the very end of the bytes.
abbrev pub Complete : Allocate → ByteOrder → List Msg → Position → Type 0
Complete new o [] p = Unit
Complete new o (m ∷ ms) p =
    IsFrame m
    × Gives new m.header.length
    × (0 < length m.payload + length (wire o ms ++ tail_bytes o p))
    × Complete new o ms p

-- The connection expects what follows the position.
abbrev pub Expects : {L : Type 0} → Position → Assembly L → Type 0
Expects none a = a.stream.state ≡ ms_waiting_header
Expects (some (m, k)) a = (a.stream.state ≡ ms_waiting_body) × (a.stream.msg_header ≡ m.header)

-- The connection holds just the bytes of the position, and expects what follows.
pub record At {L : Type 0} (o : ByteOrder) (p : Position) (a : Assembly L) : Type 0 where
  pub valid : IsValid a.stream.is
  pub order : a.stream.is.byte_order ≡ o
  pub held : contents a.stream.is ≡ tail_bytes o p
  pub expects : Expects p a

-- Rounds for some messages, and for what follows.
abbrev pub rounds_for : List Msg → ℕ → ℕ
rounds_for [] r = suc (suc r)
rounds_for (m ∷ ms) r = suc (suc (rounds_for ms r))

module _ {L : Type 0} (listener : MsgListener L) (new : Allocate) (connection : ℕ) where
  open listener use {on_msg}

  -- The listener and the freed messages after some messages were dispatched, in order.
  unfoldable pub all_dispatched : List Msg → L → List Msg → L × List Msg
  all_dispatched [] user freed = (user, freed)
  all_dispatched (m ∷ ms) user freed =
      let (action, next) = on_msg connection m user in
      all_dispatched ms next (if can_delete action then freed ++ m ∷ [] else freed)

  abbrev pub Ends : ℕ → ByteOrder → Position → List Msg → Assembly L → Type 0
  Ends rounds o p ms a =
      (b : Assembly L) × (assemble listener new connection rounds a ≡ some (ok tt b))
      × At o p b
      × ((b.user, b.freed) ≡ all_dispatched ms a.user a.freed)

  pub tail-Ends :
      (o : ByteOrder) (p : Position) (r : ℕ) (a : Assembly L)
      → Stops p
      → a.stream.state ≡ ms_waiting_header
      → IsValid a.stream.is
      → a.stream.is.byte_order ≡ o
      → contents a.stream.is ≡ tail_bytes o p
      → Ends (suc (suc r)) o p [] a
  unfolding all_dispatched
  tail-Ends o none r a stops state v ord c = (
    a,
    loop_empty listener new connection (suc r) a (omega (arith, v.counted, ap length c)),
    record { valid = v; order = ord; held = c; expects = state },
    refl,
  )
  tail-Ends o (some (m, k)) r a (f, short) state v ord c =
      let b = record a { stream = seen listener new connection m.header a.stream.is } in
      (
        b,
        loop_more listener new connection (suc r) a b some_byte
              (header_round listener new connection o m (take k m.payload) a f state v ord c)
            ∙ loop_stops listener new connection r b b some_byte
                (body_waits listener new connection b refl (omega (arith, counted, f.sized))),
        record { valid = v; order = ord; held = c; expects = (refl, refl) },
        refl,
      )
    where
      counted : a.stream.is.size ≡ header_size + k
      counted = omega (
        arith,
        v.counted,
        ap length c,
        length-append (header_bytes o m.header) (take k m.payload),
        length-header_bytes o m.header f.widths,
        length-take k m.payload,
      )

      some_byte : 0 < a.stream.is.size
      some_byte = omega (arith, counted)

  -- A message whose header was seen is dispatched, and the loop goes on.
  pub after_body :
      (o : ByteOrder) (p : Position) (rounds : ℕ) (m : Msg) (ms : List Msg) (a : Assembly L)
      → Complete new o (m ∷ ms) p
      → Expects (some (m, 0)) a
      → IsValid a.stream.is
      → a.stream.is.byte_order ≡ o
      → contents a.stream.is ≡ frame_bytes o m ++ (wire o ms ++ tail_bytes o p)
      → ((t : SegmentedInputStream)
          → Leaves a.stream.is (wire o ms ++ tail_bytes o p) t
          → Ends rounds o p ms (delivered listener new connection m t a))
      → Ends (suc rounds) o p (m ∷ ms) a
  unfolding all_dispatched dispatch
  after_body o p rounds m ms a (f, gives, some_byte, others) (state, header) v ord c goes_on =
      let (t, run, left) =
        body_round listener new connection o m (wire o ms ++ tail_bytes o p) a f gives some_byte
          state header v ord c in
      let (b, ends, there, heard) = goes_on t left in
      (
        b,
        loop_more listener new connection rounds a (delivered listener new connection m t a)
              (omega (
                arith,
                v.counted,
                ap length c,
                length-append (frame_bytes o m) (wire o ms ++ tail_bytes o p),
                length-frame_bytes o m f,
                f.sized,
              ))
              run
            ∙ ends,
        there,
        heard,
      )

  pub wire-Ends :
      (o : ByteOrder) (p : Position) (r : ℕ) (ms : List Msg) (a : Assembly L)
      → Complete new o ms p
      → Stops p
      → a.stream.state ≡ ms_waiting_header
      → IsValid a.stream.is
      → a.stream.is.byte_order ≡ o
      → contents a.stream.is ≡ wire o ms ++ tail_bytes o p
      → Ends (rounds_for ms r) o p ms a
  unfolding dispatch
  wire-Ends o p r [] a complete stops state v ord c = tail-Ends o p r a stops state v ord c
  wire-Ends o p r (m ∷ ms) a complete stops state v ord c =
      let b = record a { stream = seen listener new connection m.header a.stream.is } in
      let (d, ends, there, heard) =
        after_body o p (rounds_for ms r) m ms b complete (refl, refl) v ord whole
          (λ t (valid, left, same).
            wire-Ends o p r ms (delivered listener new connection m t b) complete.3 stops refl valid
              (same ∙ ord) left) in
      (
        d,
        loop_more listener new connection (suc (rounds_for ms r)) a b
              (omega (
                arith,
                v.counted,
                ap length c,
                length-append (frame_bytes o m ++ wire o ms) (tail_bytes o p),
                length-append (frame_bytes o m) (wire o ms),
                length-frame_bytes o m complete.0,
                complete.0.sized,
              ))
              (header_round listener new connection o m (m.payload ++ (wire o ms ++ tail_bytes o p))
                a complete.0 state v ord
                (whole
                  ∙ append_assoc (header_bytes o m.header) m.payload (wire o ms ++ tail_bytes o p)))
            ∙ ends,
        there,
        heard,
      )
    where
      whole : contents a.stream.is ≡ frame_bytes o m ++ (wire o ms ++ tail_bytes o p)
      whole = c ∙ append_assoc (frame_bytes o m) (wire o ms) (tail_bytes o p)
