-- ===== src/Flows/Steps.antt =====
-- A new flow mutex, and the steps of the goroutines that use it.
use pcap_sidecar.Common.{
  ℕ, ◌+◌, ◌≡◌, String, Bool, true, false, List, [], nat_eq, string_eq, length,
}
use pcap_sidecar.Flows.Libs.{FlowLibs}
use pcap_sidecar.Flows.Carriers.{new_flow_lock_carrier}
use pcap_sidecar.Flows.Tables.{TraceAndSpan, over, FlowMutex}
use pcap_sidecar.Flows.Sessions.{
  Session, get_carrier, may_lock, lock, unlock_and_release, unlock_with_tcp_flags,
  unlock_with_trace_and_span, expire, start_unblocking, unblock, reap,
}

-- `newFlowMutex`: the memory that is not in use yet holds new carriers.
unfoldable pub new_flow_mutex : (W : FlowLibs) → FlowMutex W
new_flow_mutex W = record {
  mutex_map = W.refs.empty;
  carriers = λ p. new_flow_lock_carrier;
  next_carrier = 0;
  traced = λ p. record {
    lock = 0;
    ts = record { trace_id = ""; span_id = ""; stream_id = 0 };
    is_active = false;
    unblocker = over;
    unblocking = false;
  };
  next_traced = 0;
  flow_map = W.refs.empty;
  tables = λ p. W.streams.empty;
  next_table = 0;
  requests = W.requests.empty;
  scheduled = [];
  panicked = false;
}

-- A step of one goroutine, with the number of times that it may move the counter of active requests.
-- The steps of a session and of the reaper hold the lock of the carrier whose counters they move.
-- `untrackConnection` on a timer does not take it, and is not among the steps.
pub data Step {W : FlowLibs} (fm : FlowMutex W) : ℕ → FlowMutex W → Type 0 where
  creates : (flow : ℕ) → Step fm 0 (get_carrier flow fm).1
  locks :
      (ctx_done : Bool) (flow carrier tcp_flags seq ack : ℕ) (local : Bool)
      → may_lock ctx_done tcp_flags (fm.carriers carrier) ≡ true
      → (fm.carriers carrier).locked ≡ false
      → Step fm 0 (lock flow carrier tcp_flags seq ack local fm).1
  releases : (ctx_done : Bool) (s : Session) → Step fm 0 (unlock_and_release ctx_done s fm).1
  unlocks :
      (ctx_done : Bool) (tcp_flags : ℕ) (s : Session)
      → Step fm 0 (unlock_with_tcp_flags ctx_done tcp_flags s fm).1
  traces :
      (ctx_done : Bool) (tcp_flags : ℕ) (is_http2 : Bool) (requests responses : List ℕ)
      (request_ts response_ts : List (ℕ × TraceAndSpan)) (s : Session)
      → Step fm (length requests + length responses) (
          unlock_with_trace_and_span ctx_done tcp_flags is_http2 requests responses request_ts
            response_ts s fm)
  expires : (tf : ℕ) → Step fm 0 (expire tf fm)
  starts : (tf : ℕ) → Step fm 0 (start_unblocking tf fm)
  unblocks : (tf : ℕ) → (fm.carriers (fm.traced tf).lock).locked ≡ false → Step fm 1 (unblock tf fm)
  reaps : (is_old : Bool) (flow : ℕ) → Step fm 0 (reap is_old flow fm)
  -- The JSON translator records the request of a trace.
  records :
      (trace : String) (request : W.Request)
      → Step fm 0 (record fm { requests = W.requests.set fm.requests trace request })

-- The sum of the moves of the steps is the index.
pub data Reaches {W : FlowLibs} (fm : FlowMutex W) : ℕ → FlowMutex W → Type 0 where
  stays : Reaches fm 0 fm
  steps : {k m : ℕ} {a b : FlowMutex W} → Reaches fm k a → Step a m b → Reaches fm (k + m) b
