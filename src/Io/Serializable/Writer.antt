-- ===== src/Io/Serializable/Writer.antt =====
-- What a chain of COMM_SERIALIZE macros writes: its bytes if they fit, and else E_NOMEM.
use commutil.Common.{
  ℕ, ◌%◌, ◌≤◌, ◌<◌, ◌≡◌, refl, sym, ap, ◌∙◌, inl, inr, List, [], ◌++◌, append_assoc, append-nil,
  arith, length, u32_mod, length-append, ltb, Bool-cases, ltb→lt, ltb→le, take_all,
}
use commutil.Err.{Out, ok, err, e_nomem, ◌>>=◌, ◌>>◌, return}
use commutil.Io.Bytes.{ByteOrder, le_bytes}
use commutil.Io.FixedOutput.{
  FixedOutputStream, IsValid, room, written, Wrote, write_bytes, write_bytes-Wrote,
  write_bytes_full,
}
use commutil.Io.Serializable.{to_order, serialize_uint, serialize_buffer}

-- The bytes of an unsigned value in a stream of this order.
abbrev pub uint_bytes : ByteOrder → ℕ → ℕ → List ℕ
uint_bytes o n v = le_bytes n (to_order o n v)

-- A length-prepended buffer.
abbrev pub buffer_bytes : ByteOrder → List ℕ → List ℕ
buffer_bytes o buffer = uint_bytes o 4 (length buffer) ++ buffer

-- On a stream of order `o`, `m` writes `bytes` if they fit, and otherwise runs out of room.
pub record Writes (o : ByteOrder) (bytes : List ℕ)
    (m : FixedOutputStream → Out FixedOutputStream (Unit {0})) : Type 0 where
  pub fits :
      (s : FixedOutputStream)
      → IsValid s
      → s.byte_order ≡ o
      → length bytes ≤ room s
      → (t : FixedOutputStream) × (m s ≡ ok tt t) × Wrote s bytes t
  pub full :
      (s : FixedOutputStream)
      → IsValid s
      → s.byte_order ≡ o
      → room s < length bytes
      → (t : FixedOutputStream) × (m s ≡ err e_nomem t)

pub Wrote-trans :
    (xs ys : List ℕ) {s t u : FixedOutputStream}
    → Wrote s xs t
    → Wrote t ys u
    → Wrote s (xs ++ ys) u
Wrote-trans xs ys {s} a b = record {
  valid = b.valid;
  bytes_added = b.bytes_added ∙ ap (λ zs. zs ++ ys) a.bytes_added ∙ append_assoc _ xs ys;
  room_left = omega (arith, length-append xs ys, a.room_left, b.room_left);
  same_size = b.same_size ∙ a.same_size;
  same_order = b.same_order ∙ a.same_order;
}

module _ (o : ByteOrder) where
  pub Writes-bytes : (bytes : List ℕ) → Writes o bytes (write_bytes bytes)
  Writes-bytes bytes = record {
    fits = λ s v e h. write_bytes-Wrote bytes s v h;
    full = λ s v e h. (s, write_bytes_full bytes s v h);
  }

  in_order :
      (n v : ℕ) (s : FixedOutputStream)
      → s.byte_order ≡ o
      → serialize_uint n v s ≡ write_bytes (uint_bytes o n v) s
  unfolding serialize_uint
  in_order n v s e = ap (λ q. write_bytes (uint_bytes q n v) s) e

  pub Writes-uint : (n v : ℕ) → Writes o (uint_bytes o n v) (serialize_uint n v)
  Writes-uint n v = record {
    fits = λ s w e h.
        let (t, run, x) = write_bytes-Wrote (uint_bytes o n v) s w h in
        (t, in_order n v s e ∙ run, x);
    full = λ s w e h. (s, in_order n v s e ∙ write_bytes_full (uint_bytes o n v) s w h);
  }

  pub Writes-nothing : Writes o [] (return tt)
  Writes-nothing = record {
    fits = λ s v e h. (
      s,
      refl,
      record {
        valid = v;
        bytes_added = sym (append-nil (written s));
        room_left = omega arith;
        same_size = refl;
        same_order = refl;
      },
    );
    full = λ s v e h. absurd (omega arith);
  }

  -- One after the other.
  pub Writes-then :
      (xs ys : List ℕ) (m k : FixedOutputStream → Out FixedOutputStream (Unit {0}))
      → Writes o xs m
      → Writes o ys k
      → Writes o (xs ++ ys) (m >> k)
  Writes-then xs ys m k a b = record {
    fits = λ s v e h.
        let (t, run, w) = a.fits s v e (omega (arith, length-append xs ys)) in
        let (u, next, x) =
          b.fits t w.valid (w.same_order ∙ e) (omega (arith, length-append xs ys, w.room_left)) in
        (u, rw (run, ◌>>=◌) next, Wrote-trans xs ys w x);
    full = λ s v e h. elim (Bool-cases (ltb (room s) (length xs))) [
      | inl short ↦ let (t, run) = a.full s v e (ltb→lt _ _ short) in (t, rw (run, ◌>>=◌))
      | inr long ↦
          let (t, run, w) = a.fits s v e (ltb→le _ _ long) in
          let (u, next) =
            b.full t w.valid (w.same_order ∙ e) (omega (arith, length-append xs ys, w.room_left)) in
          (u, rw (run, ◌>>=◌) next)
    ];
  }

  pub Writes-buffer :
      (buffer : List ℕ)
      → length buffer < u32_mod
      → Writes o (buffer_bytes o buffer) (serialize_buffer buffer)
  unfolding serialize_buffer
  Writes-buffer buffer h =
      rw (whole, take_all (length buffer) buffer (omega arith))
        (Writes-then (uint_bytes o 4 (length buffer)) buffer (serialize_uint 4 (length buffer))
          (write_bytes buffer) (Writes-uint 4 (length buffer)) (Writes-bytes buffer))
    where
      whole : length buffer % u32_mod ≡ length buffer
      whole = omega arith
