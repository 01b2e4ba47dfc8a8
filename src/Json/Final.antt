-- ===== src/Json/Final.antt =====
-- `addAppLayerData`, and `finalize` from the lock of a TCP flow on.
use pcap_sidecar.Common.{
  ℕ, Bool, Option, none, some, length, bit_and, bit_or, nat_eq, ◌==◌, if◌then◌else◌,
}
use pcap_sidecar.Filters.TcpFlags.{tcp_syn, tcp_fin, tcp_rst}
use pcap_sidecar.Flows.Libs.{FlowLibs}
use pcap_sidecar.Flows.Tables.{TraceAndSpan, FlowMutex}
use pcap_sidecar.Flows.Sessions.{Session, get_carrier, lock, unlock_with_tcp_flags}
use pcap_sidecar.Json.Libs.{Bytes, JsonLibs}
use pcap_sidecar.Json.Documents.{clip}
use pcap_sidecar.Json.Frames.{trace_and_span}
use pcap_sidecar.Json.Http.{Http, is_nil, try_set_http}

-- What a TCP packet gets besides its layers.
pub data TcpJson : Type 0 where
  -- The payload is empty: an error, and no message.
  empty_layer : TcpJson
  -- HTTP, the size of the payload, and its text if it is not binary.
  http : Http → ℕ → Option Bytes → TcpJson
  -- The size of the payload and its first bytes.
  other_payload : ℕ → Bytes → TcpJson
  -- The packet carries no payload, with the trace of its connection.
  no_payload : Option TraceAndSpan → TcpJson
  -- A nil traced flow was read before the lock is given back.
  panicked : TcpJson

module _ {W : FlowLibs} (L : JsonLibs W) where
  -- `addAppLayerData`
  unfoldable pub add_app_layer_data :
      Bool → ℕ → Bytes → Session → FlowMutex W → TcpJson × FlowMutex W
  unfolding try_set_http unlock_with_tcp_flags
  add_app_layer_data ctx_done time bytes s fm =
      let r = try_set_http L ctx_done time bytes s fm in
      if is_nil bytes
      then (empty_layer, (unlock_with_tcp_flags ctx_done s.tcp_flags s fm).1)
      else elim r.0 [
        | some h ↦ (http h (length bytes) (if h.is_http2 then none else some (clip 512 bytes)), r.1)
        | none ↦ (
          other_payload (length bytes) (clip 128 bytes),
          (unlock_with_tcp_flags ctx_done s.tcp_flags s r.1).1,
        )
      ]

  -- A packet without a payload, or one that opens or closes its connection.
  unfoldable pub add_trace : Bool → Session → FlowMutex W → TcpJson × FlowMutex W
  unfolding trace_and_span unlock_with_tcp_flags
  add_trace ctx_done s fm =
      let free = (unlock_with_tcp_flags ctx_done s.tcp_flags s fm).1 in
      if (fm.carriers s.carrier).is_http2
      then (no_payload none, free)
      else elim (trace_and_span s fm 1) [ none ↦ (panicked, fm) | some ts ↦ (no_payload ts, free) ]

  -- What is done under the lock; `app` is the application layer.
  unfoldable pub finalize_locked :
      Bool → ℕ → Option Bytes → Session → FlowMutex W → TcpJson × FlowMutex W
  unfolding add_app_layer_data add_trace
  finalize_locked ctx_done time app s fm = elim app [
    | none ↦ add_trace ctx_done s fm
    | some bytes ↦
        if bit_and (bit_or (bit_or tcp_syn tcp_fin) tcp_rst) s.tcp_flags == 0
        then add_app_layer_data ctx_done time bytes s fm
        else add_trace ctx_done s fm
  ]

  -- The end of `finalize` for a TCP packet that does not wait for its flow.
  unfoldable pub finalize_tcp :
      Bool → ℕ → Option Bytes → ℕ → ℕ → ℕ → ℕ → Bool → FlowMutex W → TcpJson × FlowMutex W
  unfolding get_carrier lock finalize_locked
  finalize_tcp ctx_done time app flow flags seq ack local fm =
      let found = get_carrier flow fm in
      let locked = lock flow found.0 flags seq ack local found.1 in
      finalize_locked ctx_done time app locked.0 locked.1
