-- ===== src/Msg/Assembler/Errors.antt =====
-- src/msg/msg_assembler.cpp, lines 119-211: messages that a connection cannot take.
use commutil.Common.{
  ℕ, suc, ◌≤◌, ◌<◌, ◌≡◌, sym, ap, ◌∙◌, true, false, none, some, List, ◌++◌, arith, length, drop,
  add32, sub32, u32_mod, if◌then◌else◌, length-append, drop_prefix, le→ltb, lt→ltb,
}
use commutil.Err.{ok, fault}
use commutil.Io.Bytes.{ByteOrder}
use commutil.Io.Stream.{Leaves}
use commutil.Io.Segmented.{SegmentedInputStream}
use commutil.Io.Segmented.Copy.{contents, IsValid}
use commutil.Io.Segmented.Read.{segmented_input, granted, skip_bytes_lem, nonempty}
use commutil.Msg.Header.{MsgHeader, header_size, of_memory, is_valid}
use commutil.Msg.Header.Codec.{HasWidths, header_bytes, length-header_bytes}
use commutil.Msg.Header.Flat.{to_host, to_host-of_memory}
use commutil.Msg.Message.{Allocate, alloc_msg, alloc_msg_like}
use commutil.Msg.Assembler.{
  MsgListener, Assembly, ms_waiting_header, ms_waiting_body, ms_resync, on_wait_header,
  on_wait_body, read_body, round_in, assemble_round, assemble,
}
use commutil.Msg.Assembler.Rounds.{peek_header, in_state, loop_stops, loop_faults}

module _ {L : Type 0} (listener : MsgListener L) (new : Allocate) (connection : ℕ) where
  -- A header without the magic word is skipped, and the connection looks for the magic word in what
  -- follows it.
  pub unknown_header_lem :
      (o : ByteOrder) (h : MsgHeader) (rest : List ℕ) (a : Assembly L)
      → HasWidths h
      → is_valid h ≡ false
      → a.stream.state ≡ ms_waiting_header
      → IsValid a.stream.is
      → a.stream.is.byte_order ≡ o
      → contents a.stream.is ≡ header_bytes o h ++ rest
      → (t : SegmentedInputStream) × (assemble_round listener new connection a
          ≡ ok true (record a { stream = record { is = t; msg_header = h; state = ms_resync } }))
        × Leaves a.stream.is rest t
  unfolding round_in on_wait_header
  unknown_header_lem o h rest a w unknown state v ord c =
      let (t, run, adv) =
        skip_bytes_lem header_size a.stream.is v (nonempty a.stream.is (omega (arith, long))) in
      (
        t,
        in_state listener new connection ms_waiting_header a state
            ∙ rw (
              on_wait_header,
              le→ltb a.stream.is.size header_size (omega (arith, long, v.counted)),
              peek_header o h rest a.stream.is w v c,
              ap is_valid same ∙ unknown,
              if◌then◌else◌,
              run,
              same,
            ),
        (
          adv.valid,
          adv.rest
              ∙ ap (λ n. drop n (contents a.stream.is)) all
              ∙ ap (drop header_size) c
              ∙ drop_prefix header_size (header_bytes o h) rest (sym (length-header_bytes o h w)),
          adv.same_order,
        ),
      )
    where
      long : header_size ≤ length (contents a.stream.is)
      long =
          omega
            (arith, ap length c, length-append (header_bytes o h) rest, length-header_bytes o h w)

      all : granted header_size a.stream.is ≡ header_size
      all = omega (arith, long)

      same : to_host a.stream.is.byte_order (of_memory (header_bytes o h)) ≡ h
      same = ap (λ q. to_host q (of_memory (header_bytes o h))) ord ∙ to_host-of_memory o h w

  -- Where there is no memory for a message that has arrived in full, its bytes are skipped and the
  -- loop ends; the connection still waits for the body of that message.
  pub no_memory_lem :
      (rounds : ℕ) (a : Assembly L)
      → a.stream.msg_header.length < u32_mod
      → new a.stream.msg_header.length ≡ none
      → a.stream.state ≡ ms_waiting_body
      → IsValid a.stream.is
      → 0 < a.stream.is.size
      → a.stream.msg_header.length ≤ a.stream.is.size
      → (t : SegmentedInputStream) × (assemble listener new connection (suc rounds) a
          ≡ some (ok tt (record a { stream = record (a.stream) { is = t } })))
        × Leaves a.stream.is (drop a.stream.msg_header.length (contents a.stream.is)) t
  unfolding round_in on_wait_body read_body alloc_msg_like alloc_msg
  no_memory_lem rounds a length_32 no_memory state v some_byte arrived =
      let (t, run, adv) =
        skip_bytes_lem a.stream.msg_header.length a.stream.is v
          (nonempty a.stream.is (omega (arith, v.counted))) in
      let b = record a { stream = record (a.stream) { is = t } } in
      (
        t,
        loop_stops listener new connection rounds a b some_byte (
            in_state listener new connection ms_waiting_body a state
            ∙ rw (
              on_wait_body,
              le→ltb a.stream.is.size a.stream.msg_header.length arrived,
              alloc_msg_like,
              alloc_msg,
              ap new whole ∙ no_memory,
              read_body,
              run,
            )),
        (adv.valid, adv.rest ∙ ap (λ n. drop n (contents a.stream.is)) all, adv.same_order),
      )
    where
      all : granted a.stream.msg_header.length a.stream.is ≡ a.stream.msg_header.length
      all = omega (arith, v.counted, arrived)

      whole :
          add32 header_size (sub32 a.stream.msg_header.length header_size)
          ≡ a.stream.msg_header.length
      whole = omega (arith, length_32)

  -- A header with a length of less than its own size makes a connection that has as many bytes allocate
  -- just these, and write a header of forty bytes there: if there is memory, the run is not defined.
  pub short_length_faults :
      (rounds : ℕ) (a : Assembly L) (memory : List ℕ)
      → a.stream.msg_header.length < header_size
      → new a.stream.msg_header.length ≡ some memory
      → a.stream.state ≡ ms_waiting_body
      → 0 < a.stream.is.size
      → a.stream.msg_header.length ≤ a.stream.is.size
      → assemble listener new connection (suc rounds) a ≡ some fault
  unfolding round_in on_wait_body alloc_msg_like alloc_msg
  short_length_faults rounds a memory short gives state some_byte arrived =
      loop_faults listener new connection rounds a some_byte (
        in_state listener new connection ms_waiting_body a state
        ∙ rw (
          on_wait_body,
          le→ltb a.stream.is.size a.stream.msg_header.length arrived,
          alloc_msg_like,
          alloc_msg,
          ap new whole ∙ gives,
          whole,
          lt→ltb a.stream.msg_header.length header_size short,
        ))
    where
      whole :
          add32 header_size (sub32 a.stream.msg_header.length header_size)
          ≡ a.stream.msg_header.length
      whole = omega (arith, short)
