-- ===== src/Io/Serializable/Reader.antt =====
-- What a chain of COMM_DESERIALIZE macros reads from the front of a stream.
use commutil.Common.{ℕ, ◌^◌, ◌<◌, ◌≡◌, refl, ap, ◌∙◌, List, ◌++◌, append_assoc, length}
use commutil.Err.{Out, ok, ◌>>=◌, return}
use commutil.Io.Bytes.{
  ByteOrder, host_order, network_order, le_value, length-le_bytes, le_value-le_bytes, hton-hton,
  hton-lt,
}
use commutil.Io.Stream.{InputStream, read_prefix, Leaves}
use commutil.Io.Serializable.{to_order, deserialize_uint, deserialize_data}
use commutil.Io.Serializable.Writer.{uint_bytes}

pub to_order-lt : (o : ByteOrder) (n v : ℕ) → v < 256 ^ n → to_order o n v < 256 ^ n
unfolding to_order
to_order-lt host_order n v h = h
to_order-lt network_order n v h = hton-lt n v

pub to_order_twice : (o : ByteOrder) (n v : ℕ) → v < 256 ^ n → to_order o n (to_order o n v) ≡ v
unfolding to_order
to_order_twice host_order n v h = refl
to_order_twice network_order n v h = hton-hton n v h

module _ {S : Type 0} ⦃is : InputStream S⦄ where
  -- On a stream of order `o` that starts with `bytes`, `m` returns `a` and takes just these bytes.
  abbrev pub Reads {ℓ} : {A : Type ℓ} → ByteOrder → List ℕ → A → (S → Out S A) → Type ℓ
  Reads o bytes a m =
      (s : S) (rest : List ℕ)
      → is.IsValid s
      → is.byte_order s ≡ o
      → is.contents s ≡ bytes ++ rest
      → (t : S) × (m s ≡ ok a t) × Leaves s rest t

  pub Reads-data :
      (o : ByteOrder) (n : ℕ) (bytes : List ℕ)
      → length bytes ≡ n
      → 0 < n
      → Reads o bytes bytes (deserialize_data n)
  unfolding deserialize_data
  Reads-data o n bytes e pos s rest v ord c = rw e at (read_prefix bytes rest s v (rw e pos) c)

  pub Reads-uint :
      (o : ByteOrder) (n v : ℕ)
      → 0 < n
      → v < 256 ^ n
      → Reads o (uint_bytes o n v) v (deserialize_uint n)
  unfolding deserialize_uint deserialize_data
  Reads-uint o n v pos h s rest w ord c =
      let (t, run, left) =
        Reads-data o n (uint_bytes o n v) (length-le_bytes n _) pos s rest w ord c in
      (t, rw (run, ◌>>=◌) (ap (λ a. ok a t) value), left)
    where
      value : to_order (is.byte_order s) n (le_value (uint_bytes o n v)) ≡ v
      value =
          ap (λ q. to_order q n (le_value (uint_bytes o n v))) ord
          ∙ ap (to_order o n) (le_value-le_bytes n (to_order o n v) (to_order-lt o n v h))
          ∙ to_order_twice o n v h

  pub Reads-bind {ℓ κ} :
      {A : Type ℓ} {B : Type κ} (o : ByteOrder) (xs ys : List ℕ) (a : A) (b : B) (m : S → Out S A)
      (f : A → S → Out S B)
      → Reads o xs a m
      → Reads o ys b (f a)
      → Reads o (xs ++ ys) b (m >>= f)
  Reads-bind o xs ys a b m f p q s rest v ord c =
      let (t, run, (valid, left, same)) = p s (ys ++ rest) v ord (c ∙ append_assoc xs ys rest) in
      let (u, next, (valid', left', same')) = q t rest valid (same ∙ ord) left in
      (u, rw (run, ◌>>=◌) next, (valid', left', same' ∙ same))

  -- The last value of a chain, from which the result is made.
  pub Reads-last {ℓ κ} :
      {A : Type ℓ} {B : Type κ} (o : ByteOrder) (xs : List ℕ) (a : A) (b : B) (m : S → Out S A)
      (f : A → S → Out S B)
      → Reads o xs a m
      → f a ≡ return b
      → Reads o xs b (m >>= f)
  Reads-last o xs a b m f p e s rest v ord c =
      let (t, run, left) = p s rest v ord c in (t, rw (run, ◌>>=◌) (ap (λ g. g t) e), left)
