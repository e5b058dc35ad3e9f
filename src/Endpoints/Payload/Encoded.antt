-- ===== src/Endpoints/Payload/Encoded.antt =====
-- The discovery payload on the wire: _publish_discovery_payload of rmw_dps_cpp/src/rmw_node.cpp, and
-- how onDiscovery of rmw_dps_cpp/include/rmw_dps_cpp/custom_node_info.hpp reads it.
use mathlib.Core.List.{append-nil, foldl}
use rmw_dps.Prelude.{
  ◌>>=◌, ◌≤◌, true, List, [], ◌∷◌, Option, none, some, length, All, All-imp, ◌≡◌, refl, ◌∙◌, arith,
}
use rmw_dps.Text.{Text}
use rmw_dps.Cbor.Codec.{Codec, Laws, Bytes, IsSize}
use rmw_dps.Cbor.Tx.{TxStream, new_stream, tx_vector, tx_string, retry}
use rmw_dps.Cbor.Rx.{rx_vector, rx_string}
use rmw_dps.Cbor.Buffer.{holding, total, wires}
use rmw_dps.Cbor.Carry.{carry_vector_pos, carry_string}
use rmw_dps.Cbor.Retry.{retry-Carries}
use rmw_dps.Text.Find.{Lacks}
use rmw_dps.Discovery.Topics.{new_node}
use rmw_dps.Discovery.Topics.RoundTrip.{
  Endpoint, add_endpoint, IsValid, payload, process_topics-payload,
}
use rmw_dps.Discovery.NodeListener.{NodeInfo, discovered, on_discovery}

module _ (c : Codec) where
  -- The stream that _publish_discovery_payload ends with; the hint is that of the default constructor.
  unfoldable pub encode_payload : List Text → Option TxStream
  encode_payload topics =
      (new_stream c 1024 >>= λ ser. some (tx_vector c (tx_string c) topics ser)) >>= λ ser.
      retry c ser.ret (λ s. some (tx_vector c (tx_string c) topics s)) ser

  -- onDiscovery with the bytes of the payload. No payload and an empty one are the same.
  unfoldable pub on_discovery_bytes : Text → Bytes → NodeInfo → Option NodeInfo
  on_discovery_bytes uuid [] s = on_discovery uuid none s
  on_discovery_bytes uuid (b ∷ bs) s = do
    (topics, rest) ← rx_vector c (rx_string c) (b ∷ bs)
    on_discovery uuid (some topics) s

module _ {c : Codec} (l : Laws c) where
  -- A payload is written, and its bytes, of which there are some, are read as the payload.
  rx_vector-encode_payload :
      (topics : List Text)
      → IsSize (length topics)
      → All (λ t. IsSize (length t)) topics
      → (s : TxStream) × (encode_payload c topics ≡ some s)
        × (1 ≤ length s.buffer.written)
        × (rx_vector c (rx_string c) s.buffer.written ≡ some (topics, []))
  unfolding encode_payload
  rx_vector-encode_payload topics size sizes =
      let (k, some_bytes) =
        carry_vector_pos l (tx_string c) (rx_string c) topics size
          (All-imp _ _ topics (carry_string l) sizes) in
      let (limit, e, fits) =
        retry-Carries l (λ s. some (tx_vector c (tx_string c) topics s)) (rx_vector c (rx_string c))
          topics 1024 k in
      (
        holding (total c k.items) limit (wires c l k.items),
        e,
        some_bytes,
        rw append-nil at (k.read []),
      )

  on_discovery_bytes-topics :
      (uuid : Text) (bytes : Bytes) (topics : List Text) (s : NodeInfo)
      → 1 ≤ length bytes
      → rx_vector c (rx_string c) bytes ≡ some (topics, [])
      → on_discovery_bytes c uuid bytes s ≡ on_discovery uuid (some topics) s
  unfolding on_discovery_bytes
  on_discovery_bytes-topics uuid [] topics s h e = absurd (omega arith)
  on_discovery_bytes-topics uuid (b ∷ bs) topics s h e = rw e refl

  -- What a node announces reaches another one. The payload of a node whose name has no `=` and whose
  -- endpoints have ROS names and entries that fit a 64-bit size is encoded, whatever its size; and
  -- onDiscovery, given these bytes, does not throw, and stores a node with exactly that name, that
  -- namespace and those endpoints.
  pub on_discovery_bytes-encode_payload :
      (name namespace_ : Text) (es : List Endpoint) (uuid : Text) (known : NodeInfo)
      → Lacks b'=' name
      → All IsValid es
      → IsSize (length (payload name namespace_ es))
      → All (λ t. IsSize (length t)) (payload name namespace_ es)
      → (s : TxStream) × (encode_payload c (payload name namespace_ es) ≡ some s)
        × (on_discovery_bytes c uuid s.buffer.written known
            ≡ some (
                discovered uuid true
                  (foldl add_endpoint (record new_node { name = name; namespace_ = namespace_ }) es)
                  known))
  unfolding on_discovery
  on_discovery_bytes-encode_payload name namespace_ es uuid known plain valid size sizes =
      let topics = payload name namespace_ es in
      let (s, e, some_bytes, back) = rx_vector-encode_payload topics size sizes in
      let whole = on_discovery_bytes-topics uuid s.buffer.written topics known some_bytes back in
      (s, e, whole ∙ rw (process_topics-payload name namespace_ es plain valid) refl)
