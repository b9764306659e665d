-- ===== src/Io/Stream.antt =====
-- inc/io/input_stream.h: the abstract input stream, as the operations that its users call with what an
-- implementation promises of them, and the templates `peek` and `read` over it.
use commutil.Common.{
  ℕ, ◌≤◌, ◌<◌, ◌≡◌, ap, ◌∙◌, List, ◌++◌, arith, length, take, drop, ltb, if◌then◌else◌, le→ltb,
  lt→ltb, length-append, take-length_append, drop-length_append,
}
use commutil.Err.{e_end_of_stream, Out, ok, err, ◌>>=◌}
use commutil.Io.Bytes.{ByteOrder}

-- `contents` are the bytes that are still to be read. A read of a positive number of bytes that the
-- stream has returns the first of them and leaves the others.
pub record InputStream (S : Type 0) : Type 1 where
  pub size : S → ℕ
  pub byte_order : S → ByteOrder
  pub peek_bytes : ℕ → S → Out S (List ℕ)
  pub read_bytes : ℕ → S → Out S (List ℕ)
  pub IsValid : S → Type 0
  pub contents : S → List ℕ
  pub size-contents : (s : S) → IsValid s → size s ≡ length (contents s)
  pub read_bytes_lem :
      (n : ℕ) (s : S)
      → IsValid s
      → 0 < n
      → n ≤ length (contents s)
      → (t : S) × (read_bytes n s ≡ ok (take n (contents s)) t)
        × IsValid t
        × (contents t ≡ drop n (contents s))
        × (byte_order t ≡ byte_order s)

module _ {S : Type 0} ⦃is : InputStream S⦄ where
  -- `peek(T& value)` and `read(T& value)`, for a type of n bytes.
  enough : ℕ → List ℕ → S → Out S (List ℕ)
  enough n bs s = if ltb (length bs) n then err e_end_of_stream s else ok bs s

  unfoldable pub peek : ℕ → S → Out S (List ℕ)
  unfolding enough
  peek n s = if ltb (is.size s) n then err e_end_of_stream s else (is.peek_bytes n >>= enough n) s

  unfoldable pub read : ℕ → S → Out S (List ℕ)
  unfolding enough
  read n s = if ltb (is.size s) n then err e_end_of_stream s else (is.read_bytes n >>= enough n) s

  -- What a successful read of `xs` leaves.
  abbrev pub Leaves : S → List ℕ → S → Type 0
  Leaves s rest t = is.IsValid t × (is.contents t ≡ rest) × (is.byte_order t ≡ is.byte_order s)

  -- Reading a value takes its bytes off the front of the stream.
  pub read_prefix :
      (xs rest : List ℕ) (s : S)
      → is.IsValid s
      → 0 < length xs
      → is.contents s ≡ xs ++ rest
      → (t : S) × (read (length xs) s ≡ ok xs t) × Leaves s rest t
  unfolding read
  read_prefix xs rest s v h e =
      let (t, run, valid, left, ord) =
        is.read_bytes_lem (length xs) s v h (omega (arith, ap length e, length-append xs rest)) in
      (
        t,
        rw (
          le→ltb (is.size s) (length xs)
              (omega (arith, is.size-contents s v, ap length e, length-append xs rest)),
          ◌>>=◌,
          run,
          first,
          le→ltb (length xs) (length xs) (omega arith),
        ),
        (valid, left ∙ rw e (drop-length_append xs rest), ord),
      )
    where
      first : take (length xs) (is.contents s) ≡ xs
      first = rw e (take-length_append xs rest)

  -- With too few bytes the read is refused, and the stream is unchanged.
  pub read_short :
      (n : ℕ) (s : S) → is.IsValid s → length (is.contents s) < n → read n s ≡ err e_end_of_stream s
  unfolding read
  read_short n s v h = rw (lt→ltb (is.size s) n (omega (arith, is.size-contents s v)))

  -- Peeking at a value that the stream has.
  pub peek_whole :
      (n : ℕ) (xs : List ℕ) (s : S)
      → is.IsValid s
      → n ≤ length (is.contents s)
      → length xs ≡ n
      → is.peek_bytes n s ≡ ok xs s
      → peek n s ≡ ok xs s
  unfolding peek
  peek_whole n xs s v h e run = rw (
    le→ltb (is.size s) n (omega (arith, is.size-contents s v)),
    ◌>>=◌,
    run,
    le→ltb (length xs) n (omega arith),
  )
