-- ===== src/Flows/Freed.antt =====
-- The ends of a session give back the lock of its carrier.
use pcap_sidecar.Common.{
  ℕ, ◌≡◌, refl, Bool, false, not, ◌&&◌, List, fold, bit_and, bit_or, nat_eq, string_eq, ◌==◌,
  Bool-cases, inl, inr, same_self,
}
use pcap_sidecar.Filters.TcpFlags.{is_connection_termination, tcp_syn, tcp_fin, tcp_rst}
use pcap_sidecar.Flows.Libs.{FlowLibs}
use pcap_sidecar.Flows.Tables.{TraceAndSpan, FlowMutex}
use pcap_sidecar.Flows.Sessions.{
  Session, unlock_mu, unlock_and_release, unlock_with_tcp_flags, unlock_with_trace_and_span,
  request_stream, response_stream, on_carrier,
}

module _ {W : FlowLibs} where
  -- The lock of the session's carrier is free.
  abbrev pub IsFree : Session → FlowMutex W → Type 0
  IsFree s fm = (fm.carriers s.carrier).locked ≡ false

  unlock_mu-IsFree : (s : Session) (fm : FlowMutex W) → IsFree s (unlock_mu s fm)
  unlock_mu-IsFree s fm = rw (same_self s.carrier) refl

  unlock_and_release-IsFree :
      (ctx_done : Bool) (s : Session) (fm : FlowMutex W)
      → IsFree s (unlock_and_release ctx_done s fm).1
  unfolding unlock_and_release
  unlock_and_release-IsFree ctx_done s fm =
      elim (Bool-cases
        ((fm.carriers s.carrier).active == 0 && not (fm.carriers s.carrier).released)) [
          | inl h ↦ rw (unlock_and_release, h, same_self s.carrier) refl
          | inr h ↦ rw (unlock_and_release, h) (unlock_mu-IsFree s fm)
        ]

  pub unlock_with_tcp_flags-IsFree :
      (ctx_done : Bool) (flags : ℕ) (s : Session) (fm : FlowMutex W)
      → IsFree s (unlock_with_tcp_flags ctx_done flags s fm).1
  unfolding unlock_with_tcp_flags
  unlock_with_tcp_flags-IsFree ctx_done flags s fm =
      elim (Bool-cases (is_connection_termination flags)) [
        | inl h ↦ rw (unlock_with_tcp_flags, h) (unlock_and_release-IsFree ctx_done s fm)
        | inr h ↦ rw (unlock_with_tcp_flags, h) (unlock_mu-IsFree s fm)
      ]

  pub unlock_with_trace_and_span-IsFree :
      (ctx_done : Bool) (flags : ℕ) (is_http2 : Bool) (requests responses : List ℕ)
      (request_ts response_ts : List (ℕ × TraceAndSpan)) (s : Session) (fm : FlowMutex W)
      → IsFree s (
          unlock_with_trace_and_span ctx_done flags is_http2 requests responses request_ts
            response_ts s fm)
  unfolding unlock_with_trace_and_span
  unlock_with_trace_and_span-IsFree ctx_done flags h requests responses request_ts response_ts s
        fm =
      let a = on_carrier s.carrier (λ c. record c { is_http2 = h }) fm in
      let b =
        fold (response_stream s response_ts) (fold (request_stream s request_ts) a requests)
          responses in
      elim (Bool-cases (bit_and s.tcp_flags (bit_or (bit_or tcp_syn tcp_fin) tcp_rst) == 0)) [
        | inl e ↦
            rw (unlock_with_trace_and_span, e) (unlock_with_tcp_flags-IsFree ctx_done flags s b)
        | inr e ↦
            rw (unlock_with_trace_and_span, e) (unlock_with_tcp_flags-IsFree ctx_done flags s fm)
      ]
