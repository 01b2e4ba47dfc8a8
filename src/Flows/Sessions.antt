-- ===== src/Flows/Sessions.antt =====
-- What happens between `lock` and the release of the lock, the function of the timers, and the
-- reaper.
use pcap_sidecar.Common.{
  ℕ, ◌+◌, Bool, true, false, not, ◌&&◌, ◌||◌, Option, none, some, List, [], ◌∷◌, ◌++◌, fold,
  bit_and, bit_or, nat_eq, string_eq, ◌==◌, if◌then◌else◌,
}
use pcap_sidecar.Common.Maps.{lookup}
use pcap_sidecar.Filters.TcpFlags.{tcp_syn, tcp_fin, tcp_rst, is_connection_termination}
use pcap_sidecar.Flows.Libs.{FlowLibs, put}
use pcap_sidecar.Flows.Carriers.{
  Carrier, new_flow_lock_carrier, count_request, count_response, count_unblocked, is_positive,
  plus_one, minus_one, is_nonneg,
}
use pcap_sidecar.Flows.Tables.{
  TraceAndSpan, Timer, running, expired, over, TracedFlow, FlowMutex, key_of_flow, traced_flow,
  track_connection, untrack_connection,
}

-- What the functions that `lock` returns have captured.
pub record Session : Type 0 where
  pub flow : ℕ
  pub carrier : ℕ
  pub tcp_flags : ℕ
  pub seq : ℕ
  pub ack : ℕ
  pub local : Bool
  -- The table of the flow at the time of the lock.
  pub table : Option ℕ

abbrev pub is_running : Timer → Bool
is_running running = true
is_running expired = false
is_running over = false

abbrev pub is_expired : Timer → Bool
is_expired running = false
is_expired expired = true
is_expired over = false

-- Whether a packet with these flags passes `wg.Wait()`.
abbrev pub may_lock : Bool → ℕ → Carrier → Bool
may_lock ctx_done tcp_flags c = not (is_connection_termination tcp_flags) || ctx_done || c.wg == 0

-- The sequence number by which `getTracedFlow` looks flows up.
abbrev pub ref_of : Session → ℕ
ref_of s = if s.local then s.ack else s.seq

module _ {W : FlowLibs} where
  abbrev pub on_carrier : ℕ → (Carrier → Carrier) → FlowMutex W → FlowMutex W
  on_carrier p f fm = record fm { carriers = put fm.carriers p (f (fm.carriers p)) }

  abbrev pub traced_unless : Bool → ℕ → (TracedFlow → TracedFlow) → FlowMutex W → FlowMutex W
  traced_unless b p f fm = record fm {
    traced = if b then fm.traced else put fm.traced p (f (fm.traced p));
  }

  -- `MutexMap.GetOrCompute`
  unfoldable pub get_carrier : ℕ → FlowMutex W → ℕ × FlowMutex W
  get_carrier flow fm = elim (W.refs.get fm.mutex_map flow) [
    | some carrier ↦ (carrier, fm)
    | none ↦ (
      fm.next_carrier,
      record fm {
        mutex_map = W.refs.set fm.mutex_map flow fm.next_carrier;
        carriers = put fm.carriers fm.next_carrier new_flow_lock_carrier;
        next_carrier = fm.next_carrier + 1;
      },
    )
  ]

  -- The end of `lock`, once the waits are over: the session, and the state.
  unfoldable pub lock : ℕ → ℕ → ℕ → ℕ → ℕ → Bool → FlowMutex W → Session × FlowMutex W
  lock flow carrier tcp_flags seq ack local fm = (
    record {
      flow = flow;
      carrier = carrier;
      tcp_flags = tcp_flags;
      seq = seq;
      ack = ack;
      local = local;
      table = W.refs.get fm.flow_map flow;
    },
    on_carrier carrier (λ c. record c { locked = true }) fm,
  )

  abbrev pub unlock_mu : Session → FlowMutex W → FlowMutex W
  unlock_mu s fm = on_carrier s.carrier (λ c. record c { locked = false }) fm

  -- `UnlockAndReleaseFN`, with the Boolean that it returns.
  unfoldable pub unlock_and_release : Bool → Session → FlowMutex W → Bool × FlowMutex W
  unlock_and_release ctx_done s fm =
      let c = fm.carriers s.carrier in
      let fm' = on_carrier s.carrier (λ d. record d { released = true }) fm in
      if c.active == 0 && not c.released
      then (
        true,
        unlock_mu s (
            if ctx_done then untrack_connection s.flow s.carrier fm' else record fm' {
              scheduled = fm'.scheduled ++ record { flow = s.flow; carrier = s.carrier } ∷ [];
            }),
      )
      else (false, unlock_mu s fm)

  -- `UnlockWithTCPFlagsFN`
  unfoldable pub unlock_with_tcp_flags : Bool → ℕ → Session → FlowMutex W → Bool × FlowMutex W
  unfolding unlock_and_release
  unlock_with_tcp_flags ctx_done tcp_flags s fm =
      if is_connection_termination tcp_flags
      then unlock_and_release ctx_done s fm
      else (false, unlock_mu s fm)

  -- The body of the loop over the request streams.
  unfoldable pub request_stream : Session → List (ℕ × TraceAndSpan) → FlowMutex W → ℕ → FlowMutex W
  request_stream s request_ts fm stream = elim (lookup request_ts stream) [
    | none ↦ fm
    | some ts ↦
        let (tf, fm') = track_connection s.carrier s.flow (key_of_flow s.local s.seq s.ack) ts fm in
        let counts = is_positive (plus_one (fm'.carriers s.carrier).active) in
        traced_unless counts tf (λ flow. record flow { is_active = false; unblocker = over })
          (on_carrier s.carrier count_request fm')
  ]

  -- A response on a stream of a traced flow: the flow's own test and stop come after the others.
  unfoldable pub respond : Session → TraceAndSpan → ℕ → FlowMutex W → FlowMutex W
  respond s ts tf fm =
      let flow = fm.traced tf in
      let counts = is_nonneg (minus_one (fm.carriers s.carrier).active) in
      let same = flow.ts.trace_id == ts.trace_id in
      let stops = flow.is_active && is_running flow.unblocker in
      let fm' = on_carrier s.carrier (count_response (same && stops)) fm in
      traced_unless (not (counts && same && flow.is_active)) tf
        (λ f. record f { is_active = false; unblocker = if stops then over else f.unblocker }) fm'

  -- The body of the loop over the response streams.
  unfoldable pub response_stream : Session → List (ℕ × TraceAndSpan) → FlowMutex W → ℕ → FlowMutex W
  unfolding respond
  response_stream s response_ts fm stream = elim (lookup response_ts stream) [
    | none ↦ fm
    | some ts ↦ elim (traced_flow fm s.table (ref_of s) ts.stream_id) [
      | none ↦ fm
      | some none ↦ record (on_carrier s.carrier (count_response false) fm) {
        panicked = fm.panicked || is_nonneg (minus_one (fm.carriers s.carrier).active);
      }
      | some (some tf) ↦ respond s ts tf fm
    ]
  ]

  -- `UnlockWithTraceAndSpan`, of the two functions that `lock` chooses from by its flags.
  unfoldable pub unlock_with_trace_and_span :
      Bool
      → ℕ
      → Bool
      → List ℕ
      → List ℕ
      → List (ℕ × TraceAndSpan)
      → List (ℕ × TraceAndSpan)
      → Session
      → FlowMutex W
      → FlowMutex W
  unfolding request_stream response_stream unlock_with_tcp_flags
  unlock_with_trace_and_span ctx_done tcp_flags is_http2 requests responses request_ts response_ts s
        fm =
      if bit_and s.tcp_flags (bit_or (bit_or tcp_syn tcp_fin) tcp_rst) == 0
      then (unlock_with_tcp_flags ctx_done tcp_flags s (
          fold (response_stream s response_ts)
            (fold (request_stream s request_ts)
              (on_carrier s.carrier (λ c. record c { is_http2 = is_http2 }) fm) requests)
            responses)).1
      else (unlock_with_tcp_flags ctx_done tcp_flags s fm).1

  -- The timer of a traced flow runs out.
  unfoldable pub expire : ℕ → FlowMutex W → FlowMutex W
  expire tf fm =
      traced_unless (not (is_running (fm.traced tf).unblocker)) tf
        (λ flow. record flow { unblocker = expired }) fm

  -- Its function starts.
  unfoldable pub start_unblocking : ℕ → FlowMutex W → FlowMutex W
  start_unblocking tf fm =
      traced_unless (not (is_expired (fm.traced tf).unblocker)) tf
        (λ f. record f { is_active = false; unblocker = over; unblocking = f.is_active }) fm

  -- Its function has the lock.
  unfoldable pub unblock : ℕ → FlowMutex W → FlowMutex W
  unblock tf fm =
      let flow = fm.traced tf in
      if flow.unblocking
      then on_carrier flow.lock count_unblocked
          (traced_unless false tf (λ f. record f { unblocking = false }) fm)
      else fm

  -- The reaper at one flow of `MutexMap`: `is_old` is whether its carrier was unlocked, and that long
  -- ago.
  unfoldable pub reap : Bool → ℕ → FlowMutex W → FlowMutex W
  reap is_old flow fm = elim (W.refs.get fm.mutex_map flow) [
    | none ↦ fm
    | some carrier ↦
        if is_old && not (fm.carriers carrier).locked
        then (let fm' = untrack_connection flow carrier fm in
            record fm' { mutex_map = W.refs.del fm'.mutex_map flow })
        else fm
  ]
