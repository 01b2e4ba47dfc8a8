-- ===== src/Examples/Flows.antt =====
-- A connection with two requests on one stream, and the packet that ends it.
use pcap_sidecar.Common.{
  String, if◌then◌else◌, ℕ, ◌+◌, ◌≡◌, ◌⊎◌, ◌≤◌, refl, Bool, true, false, none, some, [], ◌∷◌, arith,
}
use pcap_sidecar.Filters.TcpFlags.{is_connection_termination}
use pcap_sidecar.Flows.Carriers.{
  new_flow_lock_carrier, count_request, count_response, release_all, release_rounds, wg_done,
}
use pcap_sidecar.Flows.Counters.{active_requests, excess}
use pcap_sidecar.Flows.Tables.{
  TraceAndSpan, FlowMutex, track_connection, traced_flow, new_traced, add_flow, add_stream,
  range_flows, empty_streams,
}
use pcap_sidecar.Flows.Sessions.{
  Session, get_carrier, lock, unlock_with_trace_and_span, unlock_with_tcp_flags, request_stream,
  response_stream, respond, may_lock,
}
use pcap_sidecar.Flows.Steps.{new_flow_mutex, creates, locks, traces, Reaches, stays, steps}
use pcap_sidecar.Flows.Reached.{wg-covers, termination-blocked, excess-respond}
use pcap_sidecar.Flows.Greatest.{IsLinked}
use pcap_sidecar.Flows.Lookup.{traced_flow-IsLinked, track_connection-again}
use pcap_sidecar.Flows.Nils.{traced_flow-empty_streams}
use pcap_sidecar.Samples.Flows.{flow_libs, insert}

abbrev trace_of : String → TraceAndSpan
trace_of id = record { trace_id = id; span_id = ""; stream_id = 1 }

abbrev created : FlowMutex flow_libs
created = (get_carrier 7 (new_flow_mutex flow_libs)).1

abbrev locked_by : FlowMutex flow_libs → Session × FlowMutex flow_libs
locked_by fm = lock 7 0 16 100 200 true fm

-- The state after a request or a response of a trace.
abbrev traced_by : Bool → String → FlowMutex flow_libs → FlowMutex flow_libs
traced_by is_request id fm =
    unlock_with_trace_and_span false 16 false (if is_request then 1 ∷ [] else [])
      (if is_request then [] else 1 ∷ []) ((1, trace_of id) ∷ []) ((1, trace_of id) ∷ [])
      (locked_by fm).0 (locked_by fm).1

abbrev asked : FlowMutex flow_libs
asked = traced_by true "a" created

abbrev asked_twice : FlowMutex flow_libs
asked_twice = traced_by true "b" asked

abbrev answered : FlowMutex flow_libs
answered = traced_by false "b" asked_twice

-- A state with three traced flows of a stream.
abbrev sequenced : FlowMutex flow_libs
sequenced = record (new_flow_mutex flow_libs) {
  tables = λ p. (1, (100, 0) ∷ (300, 1) ∷ (200, 2) ∷ []) ∷ [];
}

-- The second response is not matched with its request.
test_answered :
    (active_requests (answered.carriers 0) ≡ 1)
    × (excess (answered.carriers 0) ≡ 1)
    × (excess (asked_twice.carriers 0) ≡ 0)
unfolding active_requests excess get_carrier new_flow_mutex lock unlock_with_trace_and_span
    request_stream response_stream respond unlock_with_tcp_flags track_connection add_flow
    new_traced traced_flow range_flows insert count_request count_response new_flow_lock_carrier
    is_connection_termination add_stream
test_answered = (refl, refl, refl)

abbrev Idle : FlowMutex flow_libs → Type 0
Idle fm = (may_lock false 16 (fm.carriers 0) ≡ true) × ((fm.carriers 0).locked ≡ false)

test-Idle : Idle created × Idle asked × Idle asked_twice × Idle answered
unfolding active_requests excess get_carrier new_flow_mutex lock unlock_with_trace_and_span
    request_stream response_stream respond unlock_with_tcp_flags track_connection add_flow
    new_traced traced_flow range_flows insert count_request count_response new_flow_lock_carrier
    is_connection_termination add_stream
test-Idle = ((refl, refl), (refl, refl), (refl, refl), (refl, refl))

Reaches-answered : Reaches (new_flow_mutex flow_libs) 3 answered
Reaches-answered =
    let (c, a, t, d) = test-Idle in
    steps
      (steps
        (steps
          (steps
            (steps (steps (steps stays (creates 7)) (locks false 7 0 16 100 200 true c.0 c.1))
              (traces false 16 false (1 ∷ []) [] _ _ _))
            (locks false 7 0 16 100 200 true a.0 a.1))
          (traces false 16 false (1 ∷ []) [] _ _ _))
        (locks false 7 0 16 100 200 true t.0 t.1))
      (traces false 16 false [] (1 ∷ []) _ _ _)

wg-covers_example :
    ((answered.carriers 0).crashed ≡ false)
    × (active_requests (answered.carriers 0) ≤ (answered.carriers 0).wg)
wg-covers_example = wg-covers 3 answered 0 Reaches-answered (omega arith)

termination-blocked_example : may_lock false 1 ((traced_by false "a" answered).carriers 0) ≡ false
unfolding active_requests excess get_carrier new_flow_mutex lock unlock_with_trace_and_span
    request_stream response_stream respond unlock_with_tcp_flags track_connection add_flow
    new_traced traced_flow range_flows insert count_request count_response new_flow_lock_carrier
    is_connection_termination add_stream
termination-blocked_example =
    let (c, a, t, d) = test-Idle in
    termination-blocked 3 1 answered (traced_by false "a" answered) 0 1 Reaches-answered
      (steps (steps stays (locks false 7 0 16 100 200 true d.0 d.1)) (
        traces false 16 false [] (1 ∷ []) ((1, trace_of "a") ∷ []) ((1, trace_of "a") ∷ [])
          (locked_by answered).0))
      (omega arith) (omega arith) refl (omega arith)

test_second_response :
    excess
      ((respond (locked_by asked_twice).0 (trace_of "b") 0 (locked_by asked_twice).1).carriers 0)
    ≡ excess ((locked_by asked_twice).1.carriers 0) + 1
unfolding active_requests excess get_carrier new_flow_mutex lock unlock_with_trace_and_span
    request_stream response_stream respond unlock_with_tcp_flags track_connection add_flow
    new_traced traced_flow range_flows insert count_request count_response new_flow_lock_carrier
    is_connection_termination add_stream
test_second_response =
    excess-respond (locked_by asked_twice).0 (trace_of "b") 0 (locked_by asked_twice).1 refl
      (omega arith) (omega arith)

traced_flow-IsLinked_example :
    ((flow_libs.sequences.items ((100, 0) ∷ (300, 1) ∷ (200, 2) ∷ []) ≡ [])
      × (traced_flow sequenced (some 0) 250 1 ≡ some none))
    ⊎ ((tf : ℕ) × (traced_flow sequenced (some 0) 250 1 ≡ some (some tf))
        × IsLinked 250 (flow_libs.sequences.items ((100, 0) ∷ (300, 1) ∷ (200, 2) ∷ [])) tf)
traced_flow-IsLinked_example =
    traced_flow-IsLinked sequenced 0 250 1 ((100, 0) ∷ (300, 1) ∷ (200, 2) ∷ []) refl

track_connection-again_example :
    traced_flow (track_connection 0 7 500 (trace_of "b") asked).1 (some 0) 250 1
    ≡ traced_flow asked (some 0) 250 1
unfolding active_requests excess get_carrier new_flow_mutex lock unlock_with_trace_and_span
    request_stream response_stream respond unlock_with_tcp_flags track_connection add_flow
    new_traced traced_flow range_flows insert count_request count_response new_flow_lock_carrier
    is_connection_termination add_stream
track_connection-again_example =
    track_connection-again asked 0 7 500 0 (trace_of "b") ((200, 0) ∷ []) refl refl 0 250 1

-- While the connection with the three traced flows is untracked.
traced_flow-empty_streams_example :
    traced_flow (empty_streams 0 sequenced) (some 0) 250 1 ≡ some none
traced_flow-empty_streams_example =
    traced_flow-empty_streams 0 1 250 sequenced ((100, 0) ∷ (300, 1) ∷ (200, 2) ∷ []) refl

-- The loop of `untrackConnection` releases two requests, and ends when the wait group panics.
test_release_all :
    (release_all (count_request (count_request new_flow_lock_carrier)) ≡ new_flow_lock_carrier)
    × ((release_all (record new_flow_lock_carrier { active = 5 })).active ≡ 4)
unfolding count_request new_flow_lock_carrier release_all release_rounds wg_done
test_release_all = (refl, refl)
