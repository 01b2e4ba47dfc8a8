-- ===== src/Flows/Lookup.antt =====
-- Which traced flow a response is linked to.
use pcap_sidecar.Common.{
  ℕ, ◌≡◌, ◌⊎◌, refl, ap₂, ◌∙◌, Bool, true, Option, none, some, List, [], ◌∷◌, arith, ltb, nat_eq,
  ◌==◌, if◌then◌else◌, Bool-cases, Option-cases, inl, inr,
}
use pcap_sidecar.Flows.Libs.{FlowLibs, Heap, put, IsSorted}
use pcap_sidecar.Flows.Tables.{
  TraceAndSpan, FlowMutex, range_flows, or_last, traced_flow, new_traced, add_stream, add_flow,
  track_connection,
}
use pcap_sidecar.Flows.Greatest.{IsLinked, last_by, last_by-none, IsGreatest-last_by, last_by-empty}

last_entry : (ℕ → Bool) → List (ℕ × ℕ) → Option ℕ
unfolding last_by
last_entry p items = elim (last_by p items) [ some (k, tf) ↦ some tf | none ↦ none ]

or_else : Option ℕ → Option ℕ → Option ℕ
or_else (some tf) last = some tf
or_else none last = last

last_entry-step :
    (p : ℕ → Bool) (r tf : ℕ) (items : List (ℕ × ℕ)) (old : Option ℕ)
    → or_else (last_entry p items) (if p r then some tf else old)
      ≡ or_else (last_entry p ((r, tf) ∷ items)) old
unfolding last_by last_entry or_else
last_entry-step p r tf items old = ground arith

range_flows-last_by :
    (ref : ℕ) (items : List (ℕ × ℕ)) (traced last : Option ℕ)
    → range_flows ref items (traced, last) ≡ (
      or_else (last_entry (λ j. ltb j ref) items) traced,
      or_else (last_entry (λ j. true) items) last,
    )
unfolding range_flows last_by last_entry or_else
range_flows-last_by ref [] traced last = refl
range_flows-last_by ref ((r, tf) ∷ items) traced last =
    range_flows-last_by ref items (if ltb r ref then some tf else traced) (some tf)
    ∙ ap₂ (λ x y. (x, y)) (last_entry-step (λ j. ltb j ref) r tf items traced)
        (last_entry-step (λ j. true) r tf items last)

Linked-range_flows :
    (ref : ℕ) (items : List (ℕ × ℕ))
    → IsSorted items
    → ((items ≡ []) × (or_last (range_flows ref items (none, none)) ≡ none))
      ⊎ ((tf : ℕ) × (or_last (range_flows ref items (none, none)) ≡ some tf)
          × IsLinked ref items tf)
unfolding last_entry or_else
Linked-range_flows ref items sorted =
    let e = range_flows-last_by ref items none none in
    elim (Option-cases (last_by (λ j. ltb j ref) items)) [
      | inr ((k, tf), d) ↦ inr (
        tf,
        rw (e, last_entry, d) refl,
        inl (k, IsGreatest-last_by (λ j. ltb j ref) items k tf sorted d),
      )
      | inl d ↦ elim (Option-cases (last_by (λ j. true) items)) [
        | inr ((k, tf), d') ↦ inr (
          tf,
          rw (e, last_entry, d, d') refl,
          inr (
            λ j v h. let below = last_by-none (λ i. ltb i ref) items j v d h in ground arith,
            k,
            IsGreatest-last_by (λ j. true) items k tf sorted d',
          ),
        )
        | inl d' ↦ inl (last_by-empty items d', rw (e, last_entry, d, d') refl)
      ]
    ]

put-same {ℓ} : {A : Type ℓ} (h : Heap A) (p q : ℕ) → put h p (h p) q ≡ h q
put-same h p q = elim (Bool-cases (p == q)) [
  | inl s ↦ ground (arith, (nat_eq.same_iff p q).0 s)
  | inr s ↦ ground (arith, s)
]

add_stream-again :
    (W : FlowLibs) (stream key tf : ℕ) (streams : W.streams.Carrier)
    (sequences : W.sequences.Carrier)
    → W.streams.get streams stream ≡ some sequences
    → add_stream W stream key tf streams ≡ streams
unfolding add_stream
add_stream-again W stream key tf streams sequences e = rw (add_stream, e) refl

module _ {W : FlowLibs} where
  -- For every flow whose stream has a map of traced flows: the answer is a nil flow when the map is
  -- empty, and otherwise the traced flow at the greatest key below the key of the response, or,
  -- when no key is below it, the one at the greatest key.
  pub traced_flow-IsLinked :
      (fm : FlowMutex W) (table ref stream : ℕ) (sequences : W.sequences.Carrier)
      → W.streams.get (fm.tables table) stream ≡ some sequences
      → ((W.sequences.items sequences ≡ []) × (traced_flow fm (some table) ref stream ≡ some none))
        ⊎ ((tf : ℕ) × (traced_flow fm (some table) ref stream ≡ some (some tf))
            × IsLinked ref (W.sequences.items sequences) tf)
  unfolding traced_flow
  traced_flow-IsLinked fm table ref stream sequences e =
      elim (Linked-range_flows ref (W.sequences.items sequences)
        (W.sequences.items-IsSorted sequences)) [
          | inl (empty, d) ↦ inl (empty, rw (traced_flow, e, d) refl)
          | inr (tf, d, linked) ↦ inr (tf, rw (traced_flow, e, d) refl, linked)
        ]

  traced_flow-tables :
      (fm fm' : FlowMutex W) (t ref stream : ℕ)
      → fm.tables t ≡ fm'.tables t
      → traced_flow fm (some t) ref stream ≡ traced_flow fm' (some t) ref stream
  unfolding traced_flow
  traced_flow-tables fm fm' t ref stream e = rw (traced_flow, e) refl

  add_flow-again :
      (flow stream key tf table : ℕ) (fm : FlowMutex W) (sequences : W.sequences.Carrier)
      → W.refs.get fm.flow_map flow ≡ some table
      → W.streams.get (fm.tables table) stream ≡ some sequences
      → (t : ℕ) → (add_flow flow stream key tf fm).tables t ≡ fm.tables t
  unfolding add_flow
  add_flow-again flow stream key tf table fm sequences e d t =
      rw (add_flow, e, add_stream-again W stream key tf (fm.tables table) sequences d)
        (put-same fm.tables table t)

  -- When the flow's table has a map for the stream of the trace: tracking the connection with the
  -- trace leaves the traced flow that every response is linked to as it was, in every table.
  pub track_connection-again :
      (fm : FlowMutex W) (carrier flow key table : ℕ) (ts : TraceAndSpan)
      (sequences : W.sequences.Carrier)
      → W.refs.get fm.flow_map flow ≡ some table
      → W.streams.get (fm.tables table) ts.stream_id ≡ some sequences
      → (t ref stream : ℕ)
      → traced_flow (track_connection carrier flow key ts fm).1 (some t) ref stream
        ≡ traced_flow fm (some t) ref stream
  unfolding traced_flow track_connection add_flow add_stream new_traced
  track_connection-again fm carrier flow key table ts sequences e d t ref stream =
      traced_flow-tables (track_connection carrier flow key ts fm).1 fm t ref stream (
        add_flow-again flow ts.stream_id key fm.next_traced table (new_traced carrier ts fm)
          sequences e d t)
