-- ===== src/Flows/Present.antt =====
-- The operations of the flow mutex one after the other, and the nil traced flow.
use pcap_sidecar.Common.{
  ℕ, ◌≢◌, refl, ap, ◌∙◌, Bool, true, false, not, ◌&&◌, Option, none, some, List, [], ◌∷◌, ◌++◌,
  fold, arith, bit_and, bit_or, nat_eq, string_eq, ◌==◌, if◌then◌else◌, Bool-cases, Option-cases,
  inl, inr,
}
use pcap_sidecar.Common.Maps.{lookup}
use pcap_sidecar.Filters.TcpFlags.{is_connection_termination, tcp_syn, tcp_fin, tcp_rst}
use pcap_sidecar.Flows.Libs.{FlowLibs}
use pcap_sidecar.Flows.Tables.{
  TraceAndSpan, FlowMutex, traced_flow, new_traced, track_connection, untrack_connection,
  key_of_flow,
}
use pcap_sidecar.Flows.Sessions.{
  Session, on_carrier, get_carrier, lock, unlock_mu, unlock_and_release, unlock_with_tcp_flags,
  request_stream, respond, response_stream, unlock_with_trace_and_span, expire, start_unblocking,
  unblock, reap, ref_of,
}
use pcap_sidecar.Flows.Lookup.{traced_flow-IsLinked}
use pcap_sidecar.Flows.Steps.{
  new_flow_mutex, Step, creates, locks, releases, unlocks, traces, expires, starts, unblocks, reaps,
  records, Reaches, stays, steps,
}
use pcap_sidecar.Flows.Filled.{
  IsPresent, fold-IsPresent, add_flow-IsPresent, empty-IsFilled, untrack_connection-IsPresent,
}

module _ {W : FlowLibs} where
  unlock_and_release-IsPresent :
      (ctx_done : Bool) (s : Session) (fm : FlowMutex W)
      → IsPresent fm
      → IsPresent (unlock_and_release ctx_done s fm).1
  unfolding unlock_and_release
  unlock_and_release-IsPresent ctx_done s fm p =
      elim (Bool-cases
        ((fm.carriers s.carrier).active == 0 && not (fm.carriers s.carrier).released)) [
          | inl h ↦
              rw (unlock_and_release, h)
                (elim ctx_done
                  as (λ b. IsPresent (
                    unlock_mu s (
                      if b
                      then untrack_connection s.flow s.carrier
                          (on_carrier s.carrier (λ d. record d { released = true }) fm)
                      else record (on_carrier s.carrier (λ d. record d { released = true }) fm) {
                        scheduled =
                            fm.scheduled ++ record { flow = s.flow; carrier = s.carrier } ∷ [];
                      }))) [
                        | true ↦
                            let q =
                              untrack_connection-IsPresent s.flow s.carrier
                                (on_carrier s.carrier (λ d. record d { released = true }) fm)
                                (record { filled = p.filled; calm = p.calm }) in
                            record { filled = q.filled; calm = q.calm }
                        | false ↦ record { filled = p.filled; calm = p.calm }
                      ])
          | inr h ↦ rw (unlock_and_release, h) (record { filled = p.filled; calm = p.calm })
        ]

  unlock_with_tcp_flags-IsPresent :
      (ctx_done : Bool) (flags : ℕ) (s : Session) (fm : FlowMutex W)
      → IsPresent fm
      → IsPresent (unlock_with_tcp_flags ctx_done flags s fm).1
  unfolding unlock_with_tcp_flags
  unlock_with_tcp_flags-IsPresent ctx_done flags s fm p =
      elim (Bool-cases (is_connection_termination flags)) [
        | inl h ↦ rw (unlock_with_tcp_flags, h) (unlock_and_release-IsPresent ctx_done s fm p)
        | inr h ↦ rw (unlock_with_tcp_flags, h) (record { filled = p.filled; calm = p.calm })
      ]

  request_stream-IsPresent :
      (s : Session) (request_ts : List (ℕ × TraceAndSpan)) (fm : FlowMutex W) (stream : ℕ)
      → IsPresent fm
      → IsPresent (request_stream s request_ts fm stream)
  unfolding request_stream track_connection new_traced
  request_stream-IsPresent s request_ts fm stream p =
      elim (Option-cases (lookup request_ts stream)) [
        | inl e ↦ rw (request_stream, e) p
        | inr (ts, e) ↦
            let q =
              add_flow-IsPresent s.flow ts.stream_id (key_of_flow s.local s.seq s.ack)
                fm.next_traced (new_traced s.carrier ts fm)
                (record { filled = p.filled; calm = p.calm }) in
            rw (request_stream, e) (record { filled = q.filled; calm = q.calm })
      ]

  -- A lookup in such a state never finds a nil flow.
  pub traced_flow-present :
      (fm : FlowMutex W) (table : Option ℕ) (ref stream : ℕ)
      → IsPresent fm
      → traced_flow fm table ref stream ≢ some none
  unfolding traced_flow
  traced_flow-present fm none ref stream p e = absurd (ground (arith, e))
  traced_flow-present fm (some t) ref stream p e =
      elim (Option-cases (W.streams.get (fm.tables t) stream)) [
        | inl n ↦ absurd (ground (arith, e, n))
        | inr (sequences, h) ↦ elim (traced_flow-IsLinked fm t ref stream sequences h) [
          | inl (empty, d) ↦ p.filled t stream sequences h empty
          | inr (tf, d, linked) ↦ absurd (ground (arith, e, d))
        ]
      ]

  response_stream-IsPresent :
      (s : Session) (response_ts : List (ℕ × TraceAndSpan)) (fm : FlowMutex W) (stream : ℕ)
      → IsPresent fm
      → IsPresent (response_stream s response_ts fm stream)
  unfolding response_stream respond
  response_stream-IsPresent s response_ts fm stream p =
      elim (Option-cases (lookup response_ts stream)) [
        | inl e ↦ rw (response_stream, e) p
        | inr (ts, e) ↦ elim (Option-cases (traced_flow fm s.table (ref_of s) ts.stream_id)) [
          | inl d ↦ rw (response_stream, e, d) p
          | inr (found, d) ↦ elim (Option-cases found) [
            | inl n ↦
                absurd (
                  traced_flow-present fm s.table (ref_of s) ts.stream_id p (d ∙ ap (λ o. some o) n))
            | inr (tf, n) ↦
                rw (response_stream, e, d, n) (record { filled = p.filled; calm = p.calm })
          ]
        ]
      ]

  unlock_with_trace_and_span-IsPresent :
      (ctx_done : Bool) (flags : ℕ) (is_http2 : Bool) (requests responses : List ℕ)
      (request_ts response_ts : List (ℕ × TraceAndSpan)) (s : Session) (fm : FlowMutex W)
      → IsPresent fm
      → IsPresent (
          unlock_with_trace_and_span ctx_done flags is_http2 requests responses request_ts
            response_ts s fm)
  unfolding unlock_with_trace_and_span
  unlock_with_trace_and_span-IsPresent ctx_done flags h requests responses request_ts response_ts s
        fm p =
      elim (Bool-cases (bit_and s.tcp_flags (bit_or (bit_or tcp_syn tcp_fin) tcp_rst) == 0)) [
        | inl e ↦
            let a = on_carrier s.carrier (λ c. record c { is_http2 = h }) fm in
            let b = fold (request_stream s request_ts) a requests in
            rw (unlock_with_trace_and_span, e)
              (unlock_with_tcp_flags-IsPresent ctx_done flags s _ (
                fold-IsPresent (response_stream s response_ts)
                  (response_stream-IsPresent s response_ts) responses b
                  (fold-IsPresent (request_stream s request_ts)
                    (request_stream-IsPresent s request_ts) requests a
                    (record { filled = p.filled; calm = p.calm }))))
        | inr e ↦
            rw (unlock_with_trace_and_span, e)
              (unlock_with_tcp_flags-IsPresent ctx_done flags s fm p)
      ]

  pub get_carrier-IsPresent :
      (flow : ℕ) (fm : FlowMutex W) → IsPresent fm → IsPresent (get_carrier flow fm).1
  unfolding get_carrier
  get_carrier-IsPresent flow fm p = elim (Option-cases (W.refs.get fm.mutex_map flow)) [
    | inl e ↦ rw (get_carrier, e) (record { filled = p.filled; calm = p.calm })
    | inr (c, e) ↦ rw (get_carrier, e) p
  ]

  unblock-IsPresent : (tf : ℕ) (fm : FlowMutex W) → IsPresent fm → IsPresent (unblock tf fm)
  unfolding unblock
  unblock-IsPresent tf fm p = elim (Bool-cases (fm.traced tf).unblocking) [
    | inl e ↦ simp e (record { filled = p.filled; calm = p.calm })
    | inr e ↦ simp e p
  ]

  reap-IsPresent :
      (is_old : Bool) (flow : ℕ) (fm : FlowMutex W) → IsPresent fm → IsPresent (reap is_old flow fm)
  unfolding reap
  reap-IsPresent is_old flow fm p = elim (Option-cases (W.refs.get fm.mutex_map flow)) [
    | inl e ↦ rw (reap, e) p
    | inr (carrier, e) ↦ elim (Bool-cases (is_old && not (fm.carriers carrier).locked)) [
      | inl h ↦
          let q = untrack_connection-IsPresent flow carrier fm p in
          rw (reap, e, h) (record { filled = q.filled; calm = q.calm })
      | inr h ↦ rw (reap, e, h) p
    ]
  ]

  Step-IsPresent : {k : ℕ} (fm fm' : FlowMutex W) → Step fm k fm' → IsPresent fm → IsPresent fm'
  unfolding lock expire start_unblocking unblock
  Step-IsPresent fm fm' (creates flow) p = get_carrier-IsPresent flow fm p
  Step-IsPresent fm fm' (locks d flow carrier flags seq ack local g h) p = record {
    filled = p.filled;
    calm = p.calm;
  }
  Step-IsPresent fm fm' (releases d s) p = unlock_and_release-IsPresent d s fm p
  Step-IsPresent fm fm' (unlocks d flags s) p = unlock_with_tcp_flags-IsPresent d flags s fm p
  Step-IsPresent fm fm' (traces d flags h requests responses request_ts response_ts s) p =
      unlock_with_trace_and_span-IsPresent d flags h requests responses request_ts response_ts s fm
        p
  Step-IsPresent fm fm' (expires tf) p = record { filled = p.filled; calm = p.calm }
  Step-IsPresent fm fm' (starts tf) p = record { filled = p.filled; calm = p.calm }
  Step-IsPresent fm fm' (unblocks tf h) p = unblock-IsPresent tf fm p
  Step-IsPresent fm fm' (records trace request) p = record { filled = p.filled; calm = p.calm }
  Step-IsPresent fm fm' (reaps old flow) p = reap-IsPresent old flow fm p

  -- The operations one after the other.
  Reaches-IsPresent :
      (fm : FlowMutex W) {k : ℕ} (fm' : FlowMutex W)
      → Reaches fm k fm'
      → IsPresent fm
      → IsPresent fm'
  Reaches-IsPresent fm fm' stays p = p
  Reaches-IsPresent fm fm' (steps {k} {m} {a} {b} r s) p =
      Step-IsPresent a b s (Reaches-IsPresent fm a r p)

  pub IsPresent-reached :
      (k : ℕ) (fm : FlowMutex W) → Reaches (new_flow_mutex W) k fm → IsPresent fm
  unfolding new_flow_mutex
  IsPresent-reached k fm r =
      Reaches-IsPresent (new_flow_mutex W) fm r
        (record { filled = λ table. empty-IsFilled W; calm = refl })

  -- From a state in which no stream has an empty map of traced flows and no nil flow was read, an
  -- operation that runs from its start to its end without another goroutine on the maps (untracking
  -- by the last packet or by the reaper included) comes to such a state again, and there no lookup
  -- answers true with a nil flow, for any table, stream and sequence number.
  pub lookups-calm :
      {k : ℕ} (fm fm' : FlowMutex W)
      → Step fm k fm'
      → IsPresent fm
      → IsPresent fm'
        × ((table : Option ℕ) (ref stream : ℕ) → traced_flow fm' table ref stream ≢ some none)
  lookups-calm fm fm' s p =
      let q = Step-IsPresent fm fm' s p in
      (q, λ table ref stream. traced_flow-present fm' table ref stream q)
