-- ===== src/Flows/Reached.antt =====
-- The counters in the states that the goroutines reach, and the packets that wait for ever.
use pcap_sidecar.Common.{
  ℕ, ◌+◌, ◌^◌, ◌<◌, ◌≤◌, ◌≡◌, refl, subst, true, false, arith, nat_eq, string_eq, ◌==◌, length,
  Bool-cases, Option-cases, inl, inr, same_self,
}
use pcap_sidecar.Filters.TcpFlags.{is_connection_termination}
use pcap_sidecar.Flows.Libs.{FlowLibs}
use pcap_sidecar.Flows.Carriers.{Carrier}
use pcap_sidecar.Flows.Counters.{
  Fits, Moves, Fits-new, excess, active_requests, same-Moves, no-Moves, Moves-trans,
  excess-unmatched,
}
use pcap_sidecar.Flows.Tables.{TraceAndSpan, FlowMutex}
use pcap_sidecar.Flows.Sessions.{
  Session, get_carrier, may_lock, lock, expire, start_unblocking, respond,
}
use pcap_sidecar.Flows.Evolution.{AllMove, AllMove-same, on_carrier-AllMove}
use pcap_sidecar.Flows.Unlocks.{
  unlock_and_release-AllMove, unlock_with_tcp_flags-AllMove, unlock_with_trace_and_span-AllMove,
  unblock-AllMove, reap-AllMove,
}
use pcap_sidecar.Flows.Steps.{
  new_flow_mutex, Step, creates, locks, releases, unlocks, traces, expires, starts, unblocks, reaps,
  records, Reaches, stays, steps,
}

excess-blocks :
    (tcp_flags : ℕ) (c : Carrier)
    → is_connection_termination tcp_flags ≡ true
    → 0 < excess c
    → may_lock false tcp_flags c ≡ false
unfolding excess
excess-blocks tcp_flags c t h = ground (arith, t, h)

module _ {W : FlowLibs} where
  -- The moves of the carriers in use, and the fit of the new ones.
  record Evolves (k : ℕ) (fm fm' : FlowMutex W) : Type 0 where
    more : fm.next_carrier ≤ fm'.next_carrier
    used : (p : ℕ) → p < fm.next_carrier → Moves k (fm.carriers p) (fm'.carriers p)
    fits : (j p : ℕ) → j + k < 2 ^ 63 → Fits j (fm.carriers p) → Fits (j + k) (fm'.carriers p)

  AllMove-Evolves : (k : ℕ) (fm fm' : FlowMutex W) → AllMove k fm fm' → Evolves k fm fm'
  AllMove-Evolves k fm fm' a = record {
    more = omega (arith, a.same_carriers);
    used = λ p b. a.moves p;
    fits = λ j p b f. (a.moves p).fits j b f;
  }

  get_carrier-Evolves : (flow : ℕ) (fm : FlowMutex W) → Evolves 0 fm (get_carrier flow fm).1
  unfolding get_carrier
  get_carrier-Evolves flow fm = elim (Option-cases (W.refs.get fm.mutex_map flow)) [
    | inl e ↦
        rw (get_carrier, e)
          (record {
            more = omega arith;
            used = λ p b. rw (apart p b) (no-Moves 0 (fm.carriers p));
            fits = λ j p b f. elim (Bool-cases (fm.next_carrier == p)) [
              | inl h ↦ rw h (Fits-new (j + 0) (omega (arith, b)))
              | inr h ↦ rw h ((no-Moves 0 (fm.carriers p)).fits j b f)
            ];
          })
    | inr (c, e) ↦ rw (get_carrier, e) (AllMove-Evolves 0 fm fm (AllMove-same fm fm refl refl))
  ]
    where
      apart : (p : ℕ) → p < fm.next_carrier → (fm.next_carrier == p) ≡ false
      apart p b = ground (arith, b)

  Evolves-trans :
      (k m : ℕ) (a b c : FlowMutex W) → Evolves k a b → Evolves m b c → Evolves (k + m) a c
  Evolves-trans k m a b c x y = record {
    more = omega (arith, x.more, y.more);
    used = λ p h.
        Moves-trans k m (a.carriers p) (b.carriers p) (c.carriers p) (x.used p h)
          (y.used p (omega (arith, h, x.more)));
    fits = λ j p h f.
        subst (λ n. Fits n (c.carriers p)) (omega arith)
          (y.fits (j + k) p (omega (arith, h)) (x.fits j p (omega (arith, h)) f));
  }

  Step-Evolves : {k : ℕ} (fm fm' : FlowMutex W) → Step fm k fm' → Evolves k fm fm'
  unfolding lock expire start_unblocking
  Step-Evolves fm fm' (creates flow) = get_carrier-Evolves flow fm
  Step-Evolves fm fm' (locks d flow carrier flags seq ack local g h) = AllMove-Evolves 0 fm _ (
      on_carrier-AllMove 0 carrier _ fm
        (λ c. same-Moves c (record c { locked = true }) refl refl refl))
  Step-Evolves fm fm' (releases d s) = AllMove-Evolves 0 fm _ (unlock_and_release-AllMove d s fm)
  Step-Evolves fm fm' (unlocks d flags s) =
      AllMove-Evolves 0 fm _ (unlock_with_tcp_flags-AllMove d flags s fm)
  Step-Evolves fm fm' (traces d flags h requests responses request_ts response_ts s) =
      AllMove-Evolves (length requests + length responses) fm _ (
        unlock_with_trace_and_span-AllMove d flags h requests responses request_ts response_ts s fm)
  Step-Evolves fm fm' (expires tf) = AllMove-Evolves 0 fm _ (AllMove-same fm _ refl refl)
  Step-Evolves fm fm' (starts tf) = AllMove-Evolves 0 fm _ (AllMove-same fm _ refl refl)
  Step-Evolves fm fm' (unblocks tf h) = AllMove-Evolves 1 fm _ (unblock-AllMove tf fm)
  Step-Evolves fm fm' (records trace request) = AllMove-Evolves 0 fm _ (AllMove-same fm _ refl refl)
  Step-Evolves fm fm' (reaps old flow) = AllMove-Evolves 0 fm _ (reap-AllMove old flow fm)

  Reaches-Evolves :
      (fm : FlowMutex W) {k : ℕ} (fm' : FlowMutex W) → Reaches fm k fm' → Evolves k fm fm'
  Reaches-Evolves fm fm' stays = AllMove-Evolves 0 fm fm (AllMove-same fm fm refl refl)
  Reaches-Evolves fm fm' (steps {k} {m} {a} {b} r s) =
      Evolves-trans k m fm a b (Reaches-Evolves fm a r) (Step-Evolves a b s)

  Fits-reached :
      (k : ℕ) (fm : FlowMutex W)
      → Reaches (new_flow_mutex W) k fm
      → k < 2 ^ 63
      → (p : ℕ) → Fits k (fm.carriers p)
  unfolding new_flow_mutex
  Fits-reached k fm r b p =
      subst (λ n. Fits n (fm.carriers p)) (omega arith)
        ((Reaches-Evolves (new_flow_mutex W) fm r).fits 0 p (omega (arith, b))
          (Fits-new 0 (omega arith)))

  -- As long as no timer has untracked a connection, which it does without the lock: in every state
  -- that the goroutines reach with fewer than 2 ^ 63 moves of the number of active requests, and for
  -- every carrier, the wait group never was to go below 0, and its counter is at least the number of
  -- active requests.
  pub wg-covers :
      (k : ℕ) (fm : FlowMutex W) (p : ℕ)
      → Reaches (new_flow_mutex W) k fm
      → k < 2 ^ 63
      → ((fm.carriers p).crashed ≡ false) × (active_requests (fm.carriers p) ≤ (fm.carriers p).wg)
  wg-covers k fm p r b = let f = Fits-reached k fm r b p in (f.safe, f.covered)

  -- Once the wait group of a carrier in use exceeds the number of its active requests, no packet
  -- that ends a connection passes the wait for this carrier any more, whatever the sessions, the
  -- unblocking timers and the reaper do after that, until the context is done or a timer untracks a
  -- connection. There are fewer than 2 ^ 63 moves of the number of active requests.
  pub termination-blocked :
      (k m : ℕ) (fm fm' : FlowMutex W) (p tcp_flags : ℕ)
      → Reaches (new_flow_mutex W) k fm
      → Reaches fm m fm'
      → k + m < 2 ^ 63
      → p < fm.next_carrier
      → is_connection_termination tcp_flags ≡ true
      → 0 < excess (fm.carriers p)
      → may_lock false tcp_flags (fm'.carriers p) ≡ false
  termination-blocked k m fm fm' p tcp_flags r q b u t h =
      excess-blocks tcp_flags (fm'.carriers p) t (
        omega (
          arith,
          h,
          ((Reaches-Evolves fm fm' q).used p u).grows k b
              (Fits-reached k fm r (omega (arith, b)) p),
        ))

  -- A response to an active request whose trace is not the one that the lookup has found leaves the
  -- wait group as it is and takes the request off the active ones: the excess grows by one.
  pub excess-respond :
      (s : Session) (ts : TraceAndSpan) (tf : ℕ) (fm : FlowMutex W)
      → ((fm.traced tf).ts.trace_id == ts.trace_id) ≡ false
      → 0 < active_requests (fm.carriers s.carrier)
      → active_requests (fm.carriers s.carrier) ≤ (fm.carriers s.carrier).wg
      → excess ((respond s ts tf fm).carriers s.carrier) ≡ excess (fm.carriers s.carrier) + 1
  unfolding respond
  excess-respond s ts tf fm d a c =
      rw (d, same_self s.carrier) (excess-unmatched (fm.carriers s.carrier) a c)
