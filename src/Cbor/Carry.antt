-- ===== src/Cbor/Carry.antt =====
-- What is written to a stream of rmw_dps_cpp/include/rmw_dps_cpp/CborStream.hpp and what is read
-- back: for a writer, a reader and a value, the items that the one writes and the other reads.
use mathlib.Core.List.{append_assoc, append-nil}
use rmw_dps.Prelude.{
  ◌>>=◌, ℕ, Bool, true, false, List, [], ◌∷◌, ◌++◌, Option, some, length, take-length,
  length-append, ◌≤◌, All, All-imp, All-intro, if◌then◌else◌, ◌==◌, none, ◌≡◌, refl, arith,
}
use rmw_dps.Text.{Text}
use rmw_dps.Cbor.Codec.{
  Codec, Laws, Reader, Item, uint, int, float, double, string, bytes, array, boolean, ℤ, pos,
  IsUint, IsInt, IsSize, IsWidth, Bytes,
}
use rmw_dps.Cbor.Tx.{
  TxStream, put, put_each, tx_uint, tx_int, tx_float, tx_double, tx_bool, tx_string, serialize_size,
  tx_u16string, tx_bools, encode_sequence, encode_bytes, tx_vector,
}
use rmw_dps.Cbor.Rx.{
  read_each, rx_uint, rx_char16, rx_int, rx_char, rx_float, rx_double, rx_string, rx_bool,
  rx_u16string, rx_bools, rx_vector, rx_bytes, decode_sequence, decode_byte_sequence,
  deserialize_sequence_size, has_size,
}
use rmw_dps.Cbor.Buffer.{puts, puts-append, wires, wires-append}

pub ==-self : (n : ℕ) → (n == n) ≡ true
==-self n = ground arith

module _ {c : Codec} (l : Laws c) where
  -- `f` writes items, and `r` reads them as the value, with what follows left.
  pub record Carries {ℓ} {A : Type ℓ} (f : TxStream → Option TxStream) (r : Reader A) (a : A)
      : Type ℓ where
    pub items : List Item
    pub sent : (s : TxStream) → f s ≡ some (puts c items s)
    pub read : (rest : Bytes) → r (wires c l items ++ rest) ≡ some (a, rest)

  -- The writers that do not throw.
  abbrev pub Sends {ℓ} : {A : Type ℓ} → (TxStream → TxStream) → Reader A → A → Type ℓ
  Sends f r a = Carries (λ s. some (f s)) r a

  pub carry_nothing {ℓ} : {A : Type ℓ} (a : A) → Carries some (λ bs. some (a, bs)) a
  unfolding put_each
  carry_nothing a = record { items = []; sent = λ s. refl; read = λ rest. refl }

  pub carry_item {ℓ} :
      {A : Type ℓ} (r : Reader A) {a : A} (i : Item)
      → ((rest : Bytes) → r (l.wire i ++ rest) ≡ some (a, rest))
      → Sends (put c i) r a
  unfolding put_each
  carry_item r i h = record {
    items = i ∷ [];
    sent = λ s. refl;
    read = λ rest. rw append-nil (h rest);
  }

  -- One writer after another, and one reader after another.
  pub carry_then {ℓ κ} :
      {A : Type ℓ} {B : Type κ} {f g : TxStream → Option TxStream} {r : Reader A} {a : A} {b : B}
      (q : A → Reader B)
      → Carries f r a
      → Carries g (q a) b
      → Carries (λ s. f s >>= g) (λ bs. r bs >>= λ p. q p.0 p.1) b
  carry_then q h k = record {
    items = h.items ++ k.items;
    sent = λ s. rw (h.sent, k.sent, puts-append) refl;
    read = λ rest. rw (wires-append, append_assoc, h.read) (k.read rest);
  }

  pub carry_map {ℓ κ} :
      {A : Type ℓ} {B : Type κ} {f : TxStream → Option TxStream} {r : Reader A} {a : A} (h : A → B)
      → Carries f r a
      → Carries f (λ bs. r bs >>= λ p. some (h p.0, p.1)) (h a)
  carry_map h k = record { items = k.items; sent = k.sent; read = λ rest. rw k.read refl }

  pub carry_each {ℓ} :
      {A : Type ℓ} (f : A → TxStream → TxStream) (r : Reader A) (xs : List A)
      → All (λ x. Sends (f x) r x) xs
      → Sends (put_each f xs) (read_each r (length xs)) xs
  unfolding put_each read_each
  carry_each f r [] h = carry_nothing []
  carry_each f r (x ∷ xs) (h, hs) =
      carry_then (λ y bs. read_each r (length xs) bs >>= λ p. some (y ∷ p.0, p.1)) h
        (carry_map (◌∷◌ x) (carry_each f r xs hs))

  carry_array : (n : ℕ) → IsSize n → Sends (put c (array n)) c.decode_array n
  carry_array n size = carry_item c.decode_array (array n) (λ rest. l.read_array n rest size)

  -- A header that gives the number of items, and the items; there is a byte at least.
  pub carry_vector_pos {ℓ} :
      {A : Type ℓ} (f : A → TxStream → TxStream) (r : Reader A) (xs : List A)
      → IsSize (length xs)
      → All (λ x. Sends (f x) r x) xs
      → (k : Sends (tx_vector c f xs) (rx_vector c r) xs) × (1 ≤ length (wires c l k.items))
  unfolding tx_vector encode_sequence rx_vector put_each
  carry_vector_pos f r xs size h =
      let k : Sends (put_each f xs) (read_each r (length xs)) xs = carry_each f r xs h in
      (
        record {
          items = array (length xs) ∷ k.items;
          sent = λ s. rw (take-length, k.sent) refl;
          read = λ rest.
              rw (append_assoc, l.read_array _ (wires c l k.items ++ rest) size) (k.read rest);
        },
        rw length-append (omega (arith, l.has_byte (array (length xs)))),
      )

  pub carry_vector {ℓ} :
      {A : Type ℓ} (f : A → TxStream → TxStream) (r : Reader A) (xs : List A)
      → IsSize (length xs)
      → All (λ x. Sends (f x) r x) xs
      → Sends (tx_vector c f xs) (rx_vector c r) xs
  carry_vector f r xs size h = (carry_vector_pos f r xs size h).0

  -- A sequence whose size the reader knows.
  pub carry_sequence {ℓ} :
      {A : Type ℓ} (f : A → TxStream → TxStream) (r : Reader A) (xs : List A)
      → IsSize (length xs)
      → All (λ x. Sends (f x) r x) xs
      → Sends (encode_sequence c f xs (length xs)) (decode_sequence c r (length xs)) xs
  unfolding encode_sequence decode_sequence
  carry_sequence f r xs size h = rw take-length (
      carry_then {g = λ s. some (put_each f xs s)}
        (λ n items. if n == length xs then read_each r (length xs) items else none)
        (carry_array (length xs) size) (rw (==-self (length xs)) (carry_each f r xs h)))

  pub carry_bytes :
      (xs : Bytes) → IsSize (length xs) → Sends (encode_bytes c xs (length xs)) (rx_bytes c) xs
  unfolding encode_bytes rx_bytes
  carry_bytes xs size =
      rw take-length (carry_item c.decode_bytes (bytes xs) (λ rest. l.read_bytes xs rest size))

  pub carry_byte_sequence :
      (xs : Bytes)
      → IsSize (length xs)
      → Sends (encode_bytes c xs (length xs)) (decode_byte_sequence c (length xs)) xs
  unfolding encode_bytes decode_byte_sequence
  carry_byte_sequence xs size = rw take-length (
      carry_item (decode_byte_sequence c (length xs)) (bytes xs)
        (λ rest. rw (l.read_bytes xs rest size, ==-self (length xs)) refl))

  pub carry_string : (s : Text) → IsSize (length s) → Sends (tx_string c s) (rx_string c) s
  unfolding tx_string rx_string
  carry_string s size = carry_item c.decode_string (string s) (λ rest. l.read_string s rest size)

  pub carry_uint : (w n : ℕ) → IsWidth w → IsUint w n → Sends (tx_uint c n) (rx_uint c w) n
  unfolding tx_uint rx_uint
  carry_uint w n width h =
      carry_item (c.decode_uint w) (uint n) (λ rest. l.read_uint w n rest width h)

  pub carry_int : (w : ℕ) (z : ℤ) → IsWidth w → IsInt w z → Sends (tx_int c z) (rx_int c w) z
  unfolding tx_int rx_int
  carry_int w z width h = carry_item (c.decode_int w) (int z) (λ rest. l.read_int w z rest width h)

  pub carry_char : (z : ℤ) → IsInt 8 z → Sends (tx_int c z) (rx_char c) z
  unfolding tx_int rx_char
  carry_char z h = carry_item (c.decode_int 8) (int z) (λ rest. l.read_int 8 z rest (omega arith) h)

  pub carry_float : (n : ℕ) → IsUint 32 n → Sends (tx_float c n) (rx_float c) n
  unfolding tx_float rx_float
  carry_float n h = carry_item c.decode_float (float n) (λ rest. l.read_float n rest h)

  pub carry_double : (n : ℕ) → IsUint 64 n → Sends (tx_double c n) (rx_double c) n
  unfolding tx_double rx_double
  carry_double n h = carry_item c.decode_double (double n) (λ rest. l.read_double n rest h)

  pub carry_bool : (b : Bool) → Sends (tx_bool c b) (rx_bool c) b
  unfolding tx_bool rx_bool
  carry_bool b = carry_item c.decode_boolean (boolean b) (λ rest. l.read_boolean b rest)

  carry_char16 : (u : ℕ) → IsUint 16 u → Sends (tx_int c (pos u)) (rx_char16 c) u
  unfolding tx_int rx_char16
  carry_char16 u h =
      carry_item (c.decode_uint 16) (int (pos u))
        (λ rest. rw l.int_as_uint (l.read_uint 16 u rest (omega arith) h))

  pub carry_u16string :
      (t : List ℕ)
      → IsSize (length t)
      → All (IsUint 16) t
      → Sends (tx_u16string c t) (rx_u16string c) t
  unfolding tx_u16string rx_u16string serialize_size
  carry_u16string t size h =
      carry_then (read_each (rx_char16 c)) (carry_array (length t) size)
        (carry_each (λ u. tx_int c (pos u)) (rx_char16 c) t (All-imp _ _ t (λ u. carry_char16 u) h))

  pub carry_bools : (v : List Bool) → IsSize (length v) → Sends (tx_bools c v) (rx_bools c) v
  unfolding tx_bools rx_bools rx_bool
  carry_bools v size =
      carry_then (read_each (rx_bool c)) (carry_array (length v) size)
        (carry_each (tx_bool c) (rx_bool c) v (All-intro v carry_bool))

  -- The same sequences, read with the size that their header shows.
  pub carry_peeked {ℓ} :
      {A : Type ℓ} (f : A → TxStream → TxStream) (r : Reader A) (xs : List A)
      → IsSize (length xs)
      → All (λ x. Sends (f x) r x) xs
      → Sends
          (encode_sequence c f xs (length xs))
          (λ bs. deserialize_sequence_size c bs >>= λ n. decode_sequence c r n bs)
          xs
  unfolding encode_sequence decode_sequence deserialize_sequence_size has_size put_each
  carry_peeked f r xs size h =
      let k : Sends (put_each f xs) (read_each r (length xs)) xs = carry_each f r xs h in
      record {
        items = array (length xs) ∷ k.items;
        sent = λ s. rw (take-length, k.sent) refl;
        read = λ rest.
            rw
              (
                append_assoc,
                l.peek_array _ (wires c l k.items ++ rest) size,
                l.read_array _ (wires c l k.items ++ rest) size,
                ==-self (length xs),
              )
              (k.read rest);
      }

  pub carry_peeked_bytes :
      (xs : Bytes)
      → IsSize (length xs)
      → Sends
          (encode_bytes c xs (length xs))
          (λ bs. deserialize_sequence_size c bs >>= λ n. decode_byte_sequence c n bs)
          xs
  unfolding encode_bytes decode_byte_sequence deserialize_sequence_size has_size
  carry_peeked_bytes xs size = rw take-length (
      carry_item (λ bs. deserialize_sequence_size c bs >>= λ n. decode_byte_sequence c n bs)
        (bytes xs)
        (λ rest.
          rw (l.peek_bytes xs rest size, l.read_bytes xs rest size, ==-self (length xs)) refl))

  -- A writer and a reader that branch alike.
  pub carry_if {ℓ} :
      {A : Type ℓ} (b : Bool) {f g : TxStream → Option TxStream} {r q : Reader A} {a : A}
      → (b ≡ true → Carries f r a)
      → (b ≡ false → Carries g q a)
      → Carries (λ s. if b then f s else g s) (λ bs. if b then r bs else q bs) a
  carry_if true h k = h refl
  carry_if false h k = k refl
