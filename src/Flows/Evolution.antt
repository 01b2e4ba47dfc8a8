-- ===== src/Flows/Evolution.antt =====
-- How the operations of the mutex move the counters of every carrier.
use pcap_sidecar.Common.{
  ℕ, ◌+◌, ◌≡◌, refl, sym, subst, ◌∙◌, List, [], ◌∷◌, fold, nat_eq, string_eq, ◌==◌, Bool-cases,
  Option-cases, inl, inr,
}
use pcap_sidecar.Flows.Libs.{FlowLibs, put}
use pcap_sidecar.Flows.Carriers.{Carrier, release_all}
use pcap_sidecar.Flows.Counters.{Moves, same-Moves, Moves-trans, no-Moves, release-Moves}
use pcap_sidecar.Flows.Tables.{
  TraceAndSpan, FlowMutex, new_traced, add_flow, track_connection, untrack_flow, untrack_stream,
  empty_streams, untrack_tables, untrack_connection,
}
use pcap_sidecar.Flows.Sessions.{on_carrier}

pub put-Moves :
    (k : ℕ) (h : ℕ → Carrier) (p : ℕ) (c : Carrier)
    → Moves k (h p) c
    → (q : ℕ) → Moves k (h q) (put h p c q)
put-Moves k h p c m q = elim (Bool-cases (p == q)) [
  | inl e ↦ rw e (subst (λ x. Moves k (h x) c) ((nat_eq.same_iff p q).0 e) m)
  | inr n ↦ rw n (no-Moves k (h q))
]

module _ {W : FlowLibs} where
  -- Every carrier moves by at most `k`, and no other carrier comes to be.
  pub record AllMove (k : ℕ) (fm fm' : FlowMutex W) : Type 0 where
    pub moves : (p : ℕ) → Moves k (fm.carriers p) (fm'.carriers p)
    pub same_carriers : fm'.next_carrier ≡ fm.next_carrier

  pub AllMove-same :
      (fm fm' : FlowMutex W)
      → fm'.carriers ≡ fm.carriers
      → fm'.next_carrier ≡ fm.next_carrier
      → AllMove 0 fm fm'
  AllMove-same fm fm' c n = record {
    moves = λ p. subst (λ h. Moves 0 (fm.carriers p) (h p)) (sym c) (same-Moves _ _ refl refl refl);
    same_carriers = n;
  }

  pub AllMove-trans :
      (k m : ℕ) (a b c : FlowMutex W) → AllMove k a b → AllMove m b c → AllMove (k + m) a c
  AllMove-trans k m a b c x y = record {
    moves =
        λ p. Moves-trans k m (a.carriers p) (b.carriers p) (c.carriers p) (x.moves p) (y.moves p);
    same_carriers = y.same_carriers ∙ x.same_carriers;
  }

  pub on_carrier-AllMove :
      (k p : ℕ) (f : Carrier → Carrier) (fm : FlowMutex W)
      → ((c : Carrier) → Moves k c (f c))
      → AllMove k fm (on_carrier p f fm)
  on_carrier-AllMove k p f fm m = record {
    moves = put-Moves k fm.carriers p (f (fm.carriers p)) (m (fm.carriers p));
    same_carriers = refl;
  }

  -- The tables leave the carriers.
  pub record Leaves (fm fm' : FlowMutex W) : Type 0 where
    pub carriers : fm'.carriers ≡ fm.carriers
    pub next : fm'.next_carrier ≡ fm.next_carrier

  pub Leaves-trans : (a b c : FlowMutex W) → Leaves a b → Leaves b c → Leaves a c
  Leaves-trans a b c x y = record { carriers = y.carriers ∙ x.carriers; next = y.next ∙ x.next }

  pub Leaves-AllMove : (fm fm' : FlowMutex W) → Leaves fm fm' → AllMove 0 fm fm'
  Leaves-AllMove fm fm' l = AllMove-same fm fm' l.carriers l.next

  pub fold-Leaves :
      {A : Type 0} (f : FlowMutex W → A → FlowMutex W)
      → ((fm : FlowMutex W) (a : A) → Leaves fm (f fm a))
      → (items : List A) (fm : FlowMutex W) → Leaves fm (fold f fm items)
  fold-Leaves f l [] fm = record { carriers = refl; next = refl }
  fold-Leaves f l (a ∷ items) fm =
      Leaves-trans fm (f fm a) _ (l fm a) (fold-Leaves f l items (f fm a))

  pub add_flow-Leaves :
      (flow stream key tf : ℕ) (fm : FlowMutex W) → Leaves fm (add_flow flow stream key tf fm)
  unfolding add_flow
  add_flow-Leaves flow stream key tf fm = elim (Option-cases (W.refs.get fm.flow_map flow)) [
    | inl e ↦ rw (add_flow, e) (record { carriers = refl; next = refl })
    | inr (t, e) ↦ rw (add_flow, e) (record { carriers = refl; next = refl })
  ]

  pub track_connection-Leaves :
      (carrier flow key : ℕ) (ts : TraceAndSpan) (fm : FlowMutex W)
      → Leaves fm (track_connection carrier flow key ts fm).1
  unfolding track_connection new_traced
  track_connection-Leaves carrier flow key ts fm =
      let l = add_flow-Leaves flow ts.stream_id key fm.next_traced (new_traced carrier ts fm) in
      record { carriers = l.carriers; next = l.next }

  pub untrack_flow-Leaves : (fm : FlowMutex W) (entry : ℕ × ℕ) → Leaves fm (untrack_flow fm entry)
  unfolding untrack_flow
  untrack_flow-Leaves fm (sequence, tf) = record { carriers = refl; next = refl }

  pub untrack_stream-Leaves :
      (table : ℕ) (fm : FlowMutex W) (entry : ℕ × W.sequences.Carrier)
      → Leaves fm (untrack_stream table fm entry)
  unfolding untrack_stream
  untrack_stream-Leaves table fm (stream, sequences) =
      let l = fold-Leaves untrack_flow untrack_flow-Leaves (W.sequences.items sequences) fm in
      record { carriers = l.carriers; next = l.next }

  pub untrack_tables-Leaves : (flow : ℕ) (fm : FlowMutex W) → Leaves fm (untrack_tables flow fm)
  unfolding untrack_tables empty_streams
  untrack_tables-Leaves flow fm = elim (Option-cases (W.refs.get fm.flow_map flow)) [
    | inl e ↦ rw (untrack_tables, e) (record { carriers = refl; next = refl })
    | inr (t, e) ↦
        let l =
          fold-Leaves (untrack_stream t) (untrack_stream-Leaves t) (W.streams.entries (fm.tables t))
            fm in
        rw (untrack_tables, e) (record { carriers = l.carriers; next = l.next })
  ]

  pub untrack_connection-AllMove :
      (flow carrier : ℕ) (fm : FlowMutex W) → AllMove 0 fm (untrack_connection flow carrier fm)
  unfolding untrack_connection
  untrack_connection-AllMove flow carrier fm =
      let fm' = untrack_tables flow fm in
      let a =
        AllMove-trans 0 0 fm fm' _ (Leaves-AllMove fm fm' (untrack_tables-Leaves flow fm))
          (on_carrier-AllMove 0 carrier release_all fm' release-Moves) in
      record { moves = a.moves; same_carriers = a.same_carriers }
