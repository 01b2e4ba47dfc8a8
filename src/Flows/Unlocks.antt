-- ===== src/Flows/Unlocks.antt =====
-- How the functions that give the lock back move the counters.
use pcap_sidecar.Common.{
  ℕ, ◌+◌, refl, subst, Bool, true, false, not, ◌&&◌, List, [], ◌∷◌, ◌++◌, fold, bit_and, bit_or,
  arith, nat_eq, string_eq, ◌==◌, if◌then◌else◌, length, Bool-cases, Option-cases, inl, inr,
}
use pcap_sidecar.Common.Maps.{lookup}
use pcap_sidecar.Filters.TcpFlags.{is_connection_termination, tcp_syn, tcp_fin, tcp_rst}
use pcap_sidecar.Flows.Libs.{FlowLibs}
use pcap_sidecar.Flows.Carriers.{count_request}
use pcap_sidecar.Flows.Counters.{
  same-Moves, Moves-wider, request-Moves, response-Moves, unblocked-Moves,
}
use pcap_sidecar.Flows.Tables.{
  TraceAndSpan, FlowMutex, traced_flow, track_connection, untrack_connection, key_of_flow,
}
use pcap_sidecar.Flows.Sessions.{
  Session, on_carrier, unlock_mu, unlock_and_release, unlock_with_tcp_flags, request_stream,
  respond, response_stream, unlock_with_trace_and_span, unblock, reap, ref_of,
}
use pcap_sidecar.Flows.Evolution.{
  put-Moves, AllMove, AllMove-same, AllMove-trans, on_carrier-AllMove, Leaves-AllMove,
  track_connection-Leaves, untrack_connection-AllMove,
}

module _ {W : FlowLibs} where
  -- `k` moves for each of the items of a loop.
  pub fold-AllMove :
      {A : Type 0} (f : FlowMutex W → A → FlowMutex W)
      → ((fm : FlowMutex W) (a : A) → AllMove 1 fm (f fm a))
      → (items : List A) (fm : FlowMutex W) → AllMove (length items) fm (fold f fm items)
  fold-AllMove f m [] fm = AllMove-same fm fm refl refl
  fold-AllMove f m (a ∷ items) fm =
      subst (λ n. AllMove n fm (fold f (f fm a) items)) (omega arith)
        (AllMove-trans 1 (length items) fm (f fm a) _ (m fm a) (fold-AllMove f m items (f fm a)))

  pub AllMove-wider : (k m : ℕ) (a b : FlowMutex W) → AllMove k a b → AllMove (k + m) a b
  AllMove-wider k m a b x = record {
    moves = λ p. Moves-wider k m (a.carriers p) (b.carriers p) (x.moves p);
    same_carriers = x.same_carriers;
  }

  pub request_stream-AllMove :
      (s : Session) (request_ts : List (ℕ × TraceAndSpan)) (fm : FlowMutex W) (stream : ℕ)
      → AllMove 1 fm (request_stream s request_ts fm stream)
  unfolding request_stream
  request_stream-AllMove s request_ts fm stream = elim (Option-cases (lookup request_ts stream)) [
    | inl e ↦ rw (request_stream, e) (AllMove-wider 0 1 fm fm (AllMove-same fm fm refl refl))
    | inr (ts, e) ↦
        let r = track_connection s.carrier s.flow (key_of_flow s.local s.seq s.ack) ts fm in
        let a =
          AllMove-trans 0 1 fm r.1 (on_carrier s.carrier count_request r.1)
            (Leaves-AllMove fm r.1
              (track_connection-Leaves s.carrier s.flow (key_of_flow s.local s.seq s.ack) ts fm))
            (on_carrier-AllMove 1 s.carrier count_request r.1 request-Moves) in
        rw (request_stream, e) (record { moves = a.moves; same_carriers = a.same_carriers })
  ]

  pub respond-AllMove :
      (s : Session) (ts : TraceAndSpan) (tf : ℕ) (fm : FlowMutex W)
      → AllMove 1 fm (respond s ts tf fm)
  unfolding respond
  respond-AllMove s ts tf fm =
      let m = put-Moves 1 fm.carriers s.carrier _ (response-Moves _ (fm.carriers s.carrier)) in
      record { moves = m; same_carriers = refl }

  pub response_stream-AllMove :
      (s : Session) (response_ts : List (ℕ × TraceAndSpan)) (fm : FlowMutex W) (stream : ℕ)
      → AllMove 1 fm (response_stream s response_ts fm stream)
  unfolding response_stream
  response_stream-AllMove s response_ts fm stream =
      elim (Option-cases (lookup response_ts stream)) [
        | inl e ↦ rw (response_stream, e) (AllMove-wider 0 1 fm fm (AllMove-same fm fm refl refl))
        | inr (ts, e) ↦ elim (Option-cases (traced_flow fm s.table (ref_of s) ts.stream_id)) [
          | inl d ↦
              rw (response_stream, e, d) (AllMove-wider 0 1 fm fm (AllMove-same fm fm refl refl))
          | inr (found, d) ↦ elim (Option-cases found) [
            | inl n ↦
                let m =
                  put-Moves 1 fm.carriers s.carrier _
                    (response-Moves false (fm.carriers s.carrier)) in
                rw (response_stream, e, d, n) (record { moves = m; same_carriers = refl })
            | inr (tf, n) ↦ rw (response_stream, e, d, n) (respond-AllMove s ts tf fm)
          ]
        ]
      ]

  -- `unlocks`: the functions that give the lock back.
  pub unlock_mu-AllMove : (s : Session) (fm : FlowMutex W) → AllMove 0 fm (unlock_mu s fm)
  unlock_mu-AllMove s fm =
      on_carrier-AllMove 0 s.carrier _ fm
        (λ c. same-Moves c (record c { locked = false }) refl refl refl)

  pub release_now :
      (ctx_done : Bool) (s : Session) (fm : FlowMutex W)
      → AllMove 0 fm (
          unlock_mu s (
            if ctx_done then untrack_connection s.flow s.carrier fm else record fm {
              scheduled = fm.scheduled ++ record { flow = s.flow; carrier = s.carrier } ∷ [];
            }))
  release_now true s fm =
      let fm' = untrack_connection s.flow s.carrier fm in
      AllMove-trans 0 0 fm fm' _ (untrack_connection-AllMove s.flow s.carrier fm)
        (unlock_mu-AllMove s fm')
  release_now false s fm =
      let a = unlock_mu-AllMove s fm in record { moves = a.moves; same_carriers = refl }

  pub unlock_and_release-AllMove :
      (ctx_done : Bool) (s : Session) (fm : FlowMutex W)
      → AllMove 0 fm (unlock_and_release ctx_done s fm).1
  unfolding unlock_and_release
  unlock_and_release-AllMove ctx_done s fm =
      elim (Bool-cases
        ((fm.carriers s.carrier).active == 0 && not (fm.carriers s.carrier).released)) [
          | inl h ↦
              let fm' = on_carrier s.carrier (λ d. record d { released = true }) fm in
              rw (unlock_and_release, h)
                (AllMove-trans 0 0 fm fm' _
                  (on_carrier-AllMove 0 s.carrier _ fm
                    (λ c. same-Moves c (record c { released = true }) refl refl refl))
                  (release_now ctx_done s fm'))
          | inr h ↦ rw (unlock_and_release, h) (unlock_mu-AllMove s fm)
        ]

  pub unlock_with_tcp_flags-AllMove :
      (ctx_done : Bool) (flags : ℕ) (s : Session) (fm : FlowMutex W)
      → AllMove 0 fm (unlock_with_tcp_flags ctx_done flags s fm).1
  unfolding unlock_with_tcp_flags
  unlock_with_tcp_flags-AllMove ctx_done flags s fm =
      elim (Bool-cases (is_connection_termination flags)) [
        | inl h ↦ rw (unlock_with_tcp_flags, h) (unlock_and_release-AllMove ctx_done s fm)
        | inr h ↦ rw (unlock_with_tcp_flags, h) (unlock_mu-AllMove s fm)
      ]

  pub unlock_with_trace_and_span-AllMove :
      (ctx_done : Bool) (flags : ℕ) (is_http2 : Bool) (requests responses : List ℕ)
      (request_ts response_ts : List (ℕ × TraceAndSpan)) (s : Session) (fm : FlowMutex W)
      → AllMove (length requests + length responses) fm (
          unlock_with_trace_and_span ctx_done flags is_http2 requests responses request_ts
            response_ts s fm)
  unfolding unlock_with_trace_and_span
  unlock_with_trace_and_span-AllMove ctx_done flags h requests responses request_ts response_ts s
        fm =
      elim (Bool-cases (bit_and s.tcp_flags (bit_or (bit_or tcp_syn tcp_fin) tcp_rst) == 0)) [
        | inl e ↦
            let a = on_carrier s.carrier (λ c. record c { is_http2 = h }) fm in
            let b = fold (request_stream s request_ts) a requests in
            let c = fold (response_stream s response_ts) b responses in
            rw (unlock_with_trace_and_span, e)
              (subst (λ n. AllMove n fm (unlock_with_tcp_flags ctx_done flags s c).1) (omega arith)
                (AllMove-trans 0 (length requests + (length responses + 0)) fm a _
                  (on_carrier-AllMove 0 s.carrier _ fm
                    (λ d. same-Moves d (record d { is_http2 = h }) refl refl refl))
                  (AllMove-trans (length requests) (length responses + 0) a b _
                    (fold-AllMove (request_stream s request_ts)
                      (request_stream-AllMove s request_ts) requests a)
                    (AllMove-trans (length responses) 0 b c _
                      (fold-AllMove (response_stream s response_ts)
                        (response_stream-AllMove s response_ts) responses b)
                      (unlock_with_tcp_flags-AllMove ctx_done flags s c)))))
        | inr e ↦
            rw (unlock_with_trace_and_span, e)
              (subst (λ n. AllMove n fm (unlock_with_tcp_flags ctx_done flags s fm).1) (omega arith)
                (AllMove-wider 0 (length requests + length responses) fm _
                  (unlock_with_tcp_flags-AllMove ctx_done flags s fm)))
      ]

  pub unblock-AllMove : (tf : ℕ) (fm : FlowMutex W) → AllMove 1 fm (unblock tf fm)
  unfolding unblock
  unblock-AllMove tf fm = elim (Bool-cases (fm.traced tf).unblocking) [
    | inl e ↦
        let m =
          put-Moves 1 fm.carriers (fm.traced tf).lock _
            (unblocked-Moves (fm.carriers (fm.traced tf).lock)) in
        simp e (record { moves = m; same_carriers = refl })
    | inr e ↦ simp e (AllMove-wider 0 1 fm fm (AllMove-same fm fm refl refl))
  ]

  pub reap-AllMove :
      (is_old : Bool) (flow : ℕ) (fm : FlowMutex W) → AllMove 0 fm (reap is_old flow fm)
  unfolding reap
  reap-AllMove is_old flow fm = elim (Option-cases (W.refs.get fm.mutex_map flow)) [
    | inl e ↦ rw (reap, e) (AllMove-same fm fm refl refl)
    | inr (carrier, e) ↦ elim (Bool-cases (is_old && not (fm.carriers carrier).locked)) [
      | inl h ↦
          let a = untrack_connection-AllMove flow carrier fm in
          rw (reap, e, h) (record { moves = a.moves; same_carriers = a.same_carriers })
      | inr h ↦ rw (reap, e, h) (AllMove-same fm fm refl refl)
    ]
  ]
