-- ===== src/Cbor/Retry.antt =====
-- The second try of the writers that rmw_dps_cpp/include/rmw_dps_cpp/TypeSupport_impl.hpp and
-- rmw_dps_cpp/src/rmw_node.cpp run on a stream of
-- rmw_dps_cpp/include/rmw_dps_cpp/CborStream.hpp.
use native.Mathlib.Decide.{dec_le}
use native.Mathlib.Nat.{zero-add}
use rmw_dps.Prelude.{◌>>=◌, ℕ, ◌≤◌, ◌<◌, List, [], Option, some, length, ◌≡◌, refl, arith}
use rmw_dps.Cbor.Codec.{Codec, Laws, Reader, Item, overflow}
use rmw_dps.Cbor.Tx.{TxStream, new_stream, retry}
use rmw_dps.Cbor.Buffer.{
  puts, total, holding, wires, puts-size, length-wires, puts_fit, puts_overflow,
}
use rmw_dps.Cbor.Carry.{Carries}

module _ {c : Codec} (l : Laws c) where
  pub new_stream-holding : (n : ℕ) → new_stream c n ≡ some (holding 0 n [])
  unfolding new_stream
  new_stream-holding n = rw l.has_memory refl

  -- A new stream that is large enough holds the items.
  fresh_fit :
      (is : List Item) (n : ℕ)
      → length (wires c l is) ≤ n
      → puts c is (holding 0 n []) ≡ holding (total c is) n (wires c l is)
  fresh_fit is n h = rw (puts_fit c l is 0 n [] (omega arith)) (rw zero-add refl)

  retry_fit :
      (is : List Item) (f : TxStream → Option TxStream) (n : ℕ)
      → ((s : TxStream) → f s ≡ some (puts c is s))
      → length (wires c l is) ≤ n
      → (new_stream c n >>= f) ≡ some (holding (total c is) n (wires c l is))
  retry_fit is f n e h = rw (new_stream-holding, e, fresh_fit is n h) refl

  -- What a stream of the size needed by a first, too small one holds.
  retry_full :
      (is : List Item) (f : TxStream → Option TxStream) (n : ℕ)
      → ((s : TxStream) → f s ≡ some (puts c is s))
      → n < length (wires c l is)
      → ((new_stream c n >>= f) >>= λ s. retry c s.ret f s)
        ≡ some (holding (total c is) (total c is) (wires c l is))
  unfolding retry
  retry_full is f n e h =
      let first : TxStream = puts c is (holding 0 n []) in
      let over : first.ret ≡ overflow = puts_overflow c l is 0 n [] (omega arith) (omega arith) in
      let size : first.size_ ≡ total c is = rw puts-size (zero-add _) in
      rw
        (
          new_stream-holding,
          e,
          over,
          size,
          new_stream-holding,
          e,
          fresh_fit is (total c is) (length-wires c l is),
        )
        refl

  -- With the second try, a writer ends with all it has to write.
  pub retry-Carries {ℓ} :
      {A : Type ℓ} (f : TxStream → Option TxStream) (r : Reader A) (a : A) (n : ℕ)
      → (h : Carries l f r a)
      → (limit : ℕ) × (((new_stream c n >>= f) >>= λ s. retry c s.ret f s)
          ≡ some (holding (total c h.items) limit (wires c l h.items)))
        × (length (wires c l h.items) ≤ limit)
  retry-Carries f r a n h = elim (dec_le (length (wires c l h.items)) n) [
    | yes room ↦ (n, rw (retry_fit h.items f n h.sent room) (unfold retry in refl), room)
    | no full ↦
        (total c h.items, retry_full h.items f n h.sent (omega arith), length-wires c l h.items)
  ]
