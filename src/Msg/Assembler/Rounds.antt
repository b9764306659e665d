-- ===== src/Msg/Assembler/Rounds.antt =====
-- src/msg/msg_assembler.cpp, lines 84-105: single rounds of the loop.
use commutil.Common.{
  ◌⊎◌, inl, inr, ℕ, zero, suc, ◌+◌, ◌≤◌, ◌<◌, ◌≡◌, refl, sym, ap, ◌∙◌, true, false, none, some,
  List, ◌++◌, arith, length, take, ◌==◌, length-append, take_prefix, le→ltb, lt→ltb,
}
use commutil.Err.{ok, fault}
use commutil.Io.Bytes.{ByteOrder}
use commutil.Io.Stream.{Leaves, peek, peek_whole}
use commutil.Io.Segmented.{SegmentedInputStream}
use commutil.Io.Segmented.Copy.{contents, IsValid}
use commutil.Io.Segmented.Read.{segmented_input, granted, peek_bytes_lem, nonempty}
use commutil.Msg.Header.{MsgHeader, header_size, magic_size, of_memory}
use commutil.Msg.Header.Codec.{HasWidths, header_bytes, length-header_bytes}
use commutil.Msg.Header.Flat.{to_host, to_host-of_memory}
use commutil.Msg.Message.{Msg, Allocate, alloc_msg_like}
use commutil.Msg.Frame.Single.{Gives}
use commutil.Msg.Assembler.{
  MsgStream, MsgListener, Assembly, ms_waiting_header, ms_waiting_body, on_wait_header, on_resync,
  on_wait_body, dispatch, read_body, round_in, assemble_round, assemble, MsgState, ms_resync,
}
use commutil.Msg.Assembler.Wire.{
  IsFrame, frame_bytes, length-frame_bytes, IsFrame-is_valid, allocated_frame, deserialize_frame,
}

-- A header at the front of a stream is peeked as its bytes.
pub peek_header :
    (o : ByteOrder) (h : MsgHeader) (rest : List ℕ) (s : SegmentedInputStream)
    → HasWidths h
    → IsValid s
    → contents s ≡ header_bytes o h ++ rest
    → peek header_size s ≡ ok (header_bytes o h) s
peek_header o h rest s w v c =
    peek_whole header_size (header_bytes o h) s v long (length-header_bytes o h w) (
      (peek_bytes_lem header_size s v (nonempty s (omega (arith, long)))).0
      ∙ ap (λ bs. ok bs s)
          (ap (λ n. take n (contents s)) all
            ∙ ap (take header_size) c
            ∙ take_prefix header_size (header_bytes o h) rest (sym (length-header_bytes o h w))))
  where
    long : header_size ≤ length (contents s)
    long =
        omega (arith, ap length c, length-append (header_bytes o h) rest, length-header_bytes o h w)

    all : granted header_size s ≡ header_size
    all = omega (arith, long)

module _ {L : Type 0} (listener : MsgListener L) (new : Allocate) (connection : ℕ) where
  -- The stream that has seen a header.
  abbrev pub seen : MsgHeader → SegmentedInputStream → MsgStream
  seen h is = record { is = is; msg_header = h; state = ms_waiting_body }

  pub in_state :
      (q : MsgState) (a : Assembly L)
      → a.stream.state ≡ q
      → assemble_round listener new connection a ≡ round_in listener new connection q a
  unfolding assemble_round
  in_state q a e = ap (λ q. round_in listener new connection q a) e

  pub header_round :
      (o : ByteOrder) (m : Msg) (rest : List ℕ) (a : Assembly L)
      → IsFrame m
      → a.stream.state ≡ ms_waiting_header
      → IsValid a.stream.is
      → a.stream.is.byte_order ≡ o
      → contents a.stream.is ≡ header_bytes o m.header ++ rest
      → assemble_round listener new connection a
        ≡ ok true (record a { stream = seen m.header a.stream.is })
  unfolding round_in on_wait_header
  header_round o m rest a f state v ord c =
      in_state ms_waiting_header a state
      ∙ rw (
        on_wait_header,
        le→ltb a.stream.is.size header_size (
            omega (
              arith,
              v.counted,
              ap length c,
              length-append (header_bytes o m.header) rest,
              length-header_bytes o m.header f.widths,
            )),
        peek_header o m.header rest a.stream.is f.widths v c,
        same,
        IsFrame-is_valid m f,
      )
    where
      same : to_host a.stream.is.byte_order (of_memory (header_bytes o m.header)) ≡ m.header
      same =
          ap (λ q. to_host q (of_memory (header_bytes o m.header))) ord
          ∙ to_host-of_memory o m.header f.widths

  -- The connection after a message was taken off its stream and dispatched.
  abbrev pub delivered : Msg → SegmentedInputStream → Assembly L → Assembly L
  delivered m t a =
      dispatch listener new connection m
        (record a { stream = record (a.stream) { is = t; state = ms_waiting_header } })

  pub body_round :
      (o : ByteOrder) (m : Msg) (rest : List ℕ) (a : Assembly L)
      → IsFrame m
      → Gives new m.header.length
      → 0 < length m.payload + length rest
      → a.stream.state ≡ ms_waiting_body
      → a.stream.msg_header ≡ m.header
      → IsValid a.stream.is
      → a.stream.is.byte_order ≡ o
      → contents a.stream.is ≡ frame_bytes o m ++ rest
      → (t : SegmentedInputStream) × (assemble_round listener new connection a
          ≡ ok true (delivered m t a))
        × Leaves a.stream.is rest t
  unfolding round_in on_wait_body read_body
  body_round o m rest a f gives some_byte state header v ord c =
      let (fresh, size, got) = allocated_frame new m f gives in
      let (t, run, left) = deserialize_frame fresh m o rest a.stream.is f size v ord c some_byte in
      (
        t,
        in_state ms_waiting_body a state
            ∙ rw (
              on_wait_body,
              le→ltb a.stream.is.size a.stream.msg_header.length enough,
              ap (alloc_msg_like new) header ∙ got,
              run,
              read_body,
            ),
        left,
      )
    where
      enough : a.stream.msg_header.length ≤ a.stream.is.size
      enough = omega (
        arith,
        ap (λ h. h.length) header,
        v.counted,
        ap length c,
        length-append (frame_bytes o m) rest,
        length-frame_bytes o m f,
      )

  -- A body that is not complete ends the loop, and nothing changes.
  pub body_waits :
      (a : Assembly L)
      → a.stream.state ≡ ms_waiting_body
      → a.stream.is.size < a.stream.msg_header.length
      → assemble_round listener new connection a ≡ ok false a
  unfolding round_in on_wait_body
  body_waits a state short =
      in_state ms_waiting_body a state
      ∙ rw (on_wait_body, lt→ltb a.stream.is.size a.stream.msg_header.length short)

  -- A header that is not complete neither changes anything nor ends the loop.
  pub header_spins :
      (a : Assembly L)
      → a.stream.state ≡ ms_waiting_header
      → a.stream.is.size < header_size
      → assemble_round listener new connection a ≡ ok true a
  unfolding round_in on_wait_header
  header_spins a state short =
      in_state ms_waiting_header a state
      ∙ rw (on_wait_header, lt→ltb a.stream.is.size header_size short)

  resync_spins :
      (a : Assembly L)
      → a.stream.state ≡ ms_resync
      → a.stream.is.size < magic_size
      → assemble_round listener new connection a ≡ ok true a
  unfolding round_in on_resync
  resync_spins a state short =
      in_state ms_resync a state ∙ rw (on_resync, lt→ltb a.stream.is.size magic_size short)

  -- The test of the loop's condition, and a round that goes on or ends it.
  pub loop_more :
      (rounds : ℕ) (a b : Assembly L)
      → 0 < a.stream.is.size
      → assemble_round listener new connection a ≡ ok true b
      → assemble listener new connection (suc rounds) a ≡ assemble listener new connection rounds b
  unfolding assemble
  loop_more rounds a b some_byte run = rw (assemble, more, run)
    where
      more : (a.stream.is.size == 0) ≡ false
      more = ground arith

  pub loop_stops :
      (rounds : ℕ) (a b : Assembly L)
      → 0 < a.stream.is.size
      → assemble_round listener new connection a ≡ ok false b
      → assemble listener new connection (suc rounds) a ≡ some (ok tt b)
  unfolding assemble
  loop_stops rounds a b some_byte run = rw (assemble, more, run)
    where
      more : (a.stream.is.size == 0) ≡ false
      more = ground arith

  pub loop_faults :
      (rounds : ℕ) (a : Assembly L)
      → 0 < a.stream.is.size
      → assemble_round listener new connection a ≡ fault
      → assemble listener new connection (suc rounds) a ≡ some fault
  unfolding assemble
  loop_faults rounds a some_byte run = rw (assemble, more, run)
    where
      more : (a.stream.is.size == 0) ≡ false
      more = ground arith

  pub loop_empty :
      (rounds : ℕ) (a : Assembly L)
      → a.stream.is.size ≡ 0
      → assemble listener new connection (suc rounds) a ≡ some (ok tt a)
  unfolding assemble
  loop_empty rounds a none_left = rw (assemble, stop)
    where
      stop : (a.stream.is.size == 0) ≡ true
      stop = ground arith

  -- Some bytes have arrived, but too few for the state that the connection is in.
  abbrev pub TooFew : Assembly L → Type 0
  TooFew a =
      (0 < a.stream.is.size)
      × (((a.stream.state ≡ ms_waiting_header) × (a.stream.is.size < header_size))
          ⊎ ((a.stream.state ≡ ms_resync) × (a.stream.is.size < magic_size)))

  TooFew-round : (a : Assembly L) → TooFew a → assemble_round listener new connection a ≡ ok true a
  TooFew-round a (some_byte, inl (state, short)) = header_spins a state short
  TooFew-round a (some_byte, inr (state, short)) = resync_spins a state short

  -- A connection that has some bytes of a header, but not all, keeps the loop of onBytesReceived going
  -- for ever, and so does one that looks for the magic word and has fewer bytes than that: however
  -- many rounds are granted, the loop has not ended.
  pub TooFew-spins :
      (rounds : ℕ) (a : Assembly L) → TooFew a → assemble listener new connection rounds a ≡ none
  TooFew-spins zero a few = unfold assemble in refl
  TooFew-spins (suc rounds) a few =
      loop_more rounds a a few.0 (TooFew-round a few) ∙ TooFew-spins rounds a few
