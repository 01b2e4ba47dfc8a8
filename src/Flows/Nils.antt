-- ===== src/Flows/Nils.antt =====
-- The nil traced flow that a lookup finds while a connection is untracked.
use pcap_sidecar.Common.{
  ℕ, ◌≡◌, ◌⊎◌, if◌then◌else◌, refl, ap, ◌∙◌, none, some, List, [], ◌∷◌, fold, arith, nat_eq,
  string_eq, ◌==◌, Bool-cases, Option-cases, inl, inr, same_self,
}
use pcap_sidecar.Common.Maps.{lookup}
use pcap_sidecar.Flows.Libs.{FlowLibs}
use pcap_sidecar.Flows.Tables.{
  FlowMutex, traced_flow, range_flows, without_sequences, untrack_flow, untrack_stream,
  empty_streams,
}
use pcap_sidecar.Flows.Filled.{fold-Spares, untrack_flow-Spares}

no_items : (items : List (ℕ × ℕ)) → ((j : ℕ) → lookup items j ≡ none) → items ≡ []
no_items [] n = refl
no_items ((k, v) ∷ items) n = absurd (ground (arith, n k, same_self k))

module _ (W : FlowLibs) where
  without_sequences-left :
      (q : W.sequences.Carrier) (items : List (ℕ × ℕ)) (j : ℕ)
      → ((lookup (W.sequences.items q) j ≡ none) ⊎ ((v : ℕ) × (lookup items j ≡ some v)))
      → lookup (W.sequences.items (without_sequences W q items)) j ≡ none
  without_sequences-left q [] j (inl n) = n
  without_sequences-left q [] j (inr (v, e)) = absurd (ground (arith, e))
  without_sequences-left q ((k, w) ∷ items) j h =
      let d = W.sequences.lookup-delete q k j in
      without_sequences-left (W.sequences.delete q k) items j (elim (Bool-cases (k == j)) [
        | inl e ↦ inl (ground (arith, d, e))
        | inr e ↦ elim h [
          | inl n ↦ inl (ground (arith, d, e, n))
          | inr (v, f) ↦ inr (v, ground (arith, f, e))
        ]
      ])

  without_sequences_all :
      (q : W.sequences.Carrier)
      → W.sequences.items (without_sequences W q (W.sequences.items q)) ≡ []
  without_sequences_all q = no_items _ (λ j.
      without_sequences-left q (W.sequences.items q) j
        (Option-cases (lookup (W.sequences.items q) j)))

module _ {W : FlowLibs} where
  -- The stream stands in the table with an empty map.
  IsEmptied : ℕ → ℕ → FlowMutex W → Type 0
  IsEmptied t stream fm =
      (q : W.sequences.Carrier) × (W.streams.get (fm.tables t) stream ≡ some q)
      × (W.sequences.items q ≡ [])

  get-untrack_stream :
      (t k : ℕ) (sequences : W.sequences.Carrier) (fm : FlowMutex W) (stream : ℕ)
      → W.streams.get ((untrack_stream t fm (k, sequences)).tables t) stream ≡ (
          if k == stream
          then some (without_sequences W sequences (W.sequences.items sequences))
          else W.streams.get (fm.tables t) stream)
  unfolding untrack_stream
  get-untrack_stream t k sequences fm stream =
      let s = fold-Spares untrack_flow untrack_flow-Spares (W.sequences.items sequences) fm in
      let left = without_sequences W sequences (W.sequences.items sequences) in
      rw (same_self t) (
        W.streams.get-set _ k left stream
        ∙ ap (λ m. if k == stream then some left else W.streams.get (m t) stream) s.same_tables)

  untrack_streams-IsEmptied :
      (t stream : ℕ) (entries : List (ℕ × W.sequences.Carrier)) (fm : FlowMutex W)
      → ((IsEmptied t stream fm) ⊎ ((q : W.sequences.Carrier) × (lookup entries stream ≡ some q)))
      → IsEmptied t stream (fold (untrack_stream t) fm entries)
  unfolding IsEmptied
  untrack_streams-IsEmptied t stream [] fm (inl e) = e
  untrack_streams-IsEmptied t stream [] fm (inr (q, e)) = absurd (ground (arith, e))
  untrack_streams-IsEmptied t stream ((k, sequences) ∷ entries) fm h =
      let g = get-untrack_stream t k sequences fm stream in
      untrack_streams-IsEmptied t stream entries (untrack_stream t fm (k, sequences))
        (elim (Bool-cases (k == stream)) [
          | inl e ↦ inl (
            without_sequences W sequences (W.sequences.items sequences),
            ground (arith, g, e),
            without_sequences_all W sequences,
          )
          | inr e ↦ elim h [
            | inl (q, f, n) ↦ inl (q, ground (arith, g, e, f), n)
            | inr (q, f) ↦ inr (q, ground (arith, f, e))
          ]
        ])

  -- Between the two halves of `untrackConnection` on the tables, which takes no lock when a timer
  -- runs it, a lookup on a stream with a map of traced flows answers true with a nil flow, whatever
  -- the sequence number.
  pub traced_flow-empty_streams :
      (t stream ref : ℕ) (fm : FlowMutex W) (sequences : W.sequences.Carrier)
      → W.streams.get (fm.tables t) stream ≡ some sequences
      → traced_flow (empty_streams t fm) (some t) ref stream ≡ some none
  unfolding traced_flow empty_streams range_flows IsEmptied
  traced_flow-empty_streams t stream ref fm sequences e =
      let entries = W.streams.entries (fm.tables t) in
      let (q, f, n) =
        untrack_streams-IsEmptied t stream entries fm
          (inr (sequences, W.streams.lookup-entries (fm.tables t) stream ∙ e)) in
      rw (traced_flow, f, n) refl
