-- ===== src/Flows/Filled.antt =====
-- No map of traced flows is empty: how the functions on the tables keep this.
use pcap_sidecar.Common.{
  ℕ, ◌≡◌, ◌≢◌, refl, sym, ap, ◌∙◌, subst, false, none, some, List, [], ◌∷◌, fold, arith, nat_eq,
  string_eq, ◌==◌, Bool-cases, Option-cases, inl, inr, same_self, holds_if,
}
use pcap_sidecar.Common.Maps.{lookup}
use pcap_sidecar.Flows.Libs.{FlowLibs, Heap, put}
use pcap_sidecar.Flows.Tables.{
  FlowMutex, add_stream, without_streams, without_sequences, add_flow, untrack_flow, untrack_stream,
  empty_streams, untrack_tables, untrack_connection,
}

module _ (W : FlowLibs) where
  abbrev pub IsFilled : W.streams.Carrier → Type 0
  IsFilled table =
      (stream : ℕ) (sequences : W.sequences.Carrier)
      → W.streams.get table stream ≡ some sequences
      → W.sequences.items sequences ≢ []

  pub items-store :
      (m : W.sequences.Carrier) (k v : ℕ) → W.sequences.items (W.sequences.store m k v) ≢ []
  items-store m k v e =
      let h = W.sequences.lookup-items m k v k in absurd (ground (arith, e, h, same_self k))

  pub empty-IsFilled : IsFilled W.streams.empty
  empty-IsFilled stream sequences e = absurd (ground (arith, e, W.streams.get-empty stream))

  pub add_stream-IsFilled :
      (stream key tf : ℕ) (table : W.streams.Carrier)
      → IsFilled table
      → IsFilled (add_stream W stream key tf table)
  unfolding add_stream
  add_stream-IsFilled stream key tf table f = elim (Option-cases (W.streams.get table stream)) [
    | inr (sequences, e) ↦ rw (add_stream, e) f
    | inl e ↦
        rw (add_stream, e)
          (λ other found h. elim (Bool-cases (stream == other)) [
            | inl s ↦
                let g =
                  W.streams.get-set table stream (W.sequences.store W.sequences.empty key tf)
                    other in
                let same : W.sequences.store W.sequences.empty key tf ≡ found =
                  ground (arith, g, s, h) in
                subst (λ q. W.sequences.items q ≢ []) same (items-store W.sequences.empty key tf)
            | inr s ↦
                let g =
                  W.streams.get-set table stream (W.sequences.store W.sequences.empty key tf)
                    other in
                f other found (ground (arith, g, s, h))
          ])
  ]

  -- What is left was not among the entries that were removed.
  get-without_streams :
      (table : W.streams.Carrier) (entries : List (ℕ × W.sequences.Carrier)) (stream : ℕ)
      (found : W.sequences.Carrier)
      → W.streams.get (without_streams W table entries) stream ≡ some found
      → (lookup entries stream ≡ none) × (W.streams.get table stream ≡ some found)
  get-without_streams table [] stream found e = (refl, e)
  get-without_streams table ((k, sequences) ∷ entries) stream found e =
      let q = get-without_streams (W.streams.del table k) entries stream found e in
      let d = W.streams.get-del table k stream in
      (ground (arith, q.0, q.1, d), ground (arith, q.1, d))

  pub put-IsFilled :
      (h : Heap W.streams.Carrier) (p : ℕ) (t : W.streams.Carrier)
      → ((q : ℕ) → IsFilled (h q))
      → IsFilled t
      → (q : ℕ) → IsFilled (put h p t q)
  put-IsFilled h p t all f q = holds_if (IsFilled) (p == q) t (h q) (λ e. f) (λ e. all q)

module _ {W : FlowLibs} where
  -- Every map has an item, and no nil pointer was read.
  pub record IsPresent (fm : FlowMutex W) : Type 0 where
    pub filled : (table : ℕ) → IsFilled W (fm.tables table)
    pub calm : fm.panicked ≡ false

  -- A step that leaves the tables.
  pub record Spares (fm fm' : FlowMutex W) : Type 0 where
    pub same_tables : fm'.tables ≡ fm.tables
    pub same_panicked : fm'.panicked ≡ fm.panicked

  pub Spares-IsPresent : (fm fm' : FlowMutex W) → Spares fm fm' → IsPresent fm → IsPresent fm'
  Spares-IsPresent fm fm' s p = record {
    filled = λ table. subst (λ h. IsFilled W (h table)) (sym s.same_tables) (p.filled table);
    calm = ground (arith, s.same_panicked, p.calm);
  }

  pub Spares-trans : (a b c : FlowMutex W) → Spares a b → Spares b c → Spares a c
  Spares-trans a b c x y = record {
    same_tables = y.same_tables ∙ x.same_tables;
    same_panicked = y.same_panicked ∙ x.same_panicked;
  }

  pub fold-IsPresent :
      {A : Type 0} (f : FlowMutex W → A → FlowMutex W)
      → ((fm : FlowMutex W) (a : A) → IsPresent fm → IsPresent (f fm a))
      → (items : List A) (fm : FlowMutex W) → IsPresent fm
      → IsPresent (fold f fm items)
  fold-IsPresent f m [] fm p = p
  fold-IsPresent f m (a ∷ items) fm p = fold-IsPresent f m items (f fm a) (m fm a p)

  pub fold-Spares :
      {A : Type 0} (f : FlowMutex W → A → FlowMutex W)
      → ((fm : FlowMutex W) (a : A) → Spares fm (f fm a))
      → (items : List A) (fm : FlowMutex W) → Spares fm (fold f fm items)
  fold-Spares f m [] fm = record { same_tables = refl; same_panicked = refl }
  fold-Spares f m (a ∷ items) fm =
      Spares-trans fm (f fm a) _ (m fm a) (fold-Spares f m items (f fm a))

  pub add_flow-IsPresent :
      (flow stream key tf : ℕ) (fm : FlowMutex W)
      → IsPresent fm
      → IsPresent (add_flow flow stream key tf fm)
  unfolding add_flow
  add_flow-IsPresent flow stream key tf fm p = elim (Option-cases (W.refs.get fm.flow_map flow)) [
    | inl e ↦
        rw (add_flow, e)
          (record {
            filled =
                put-IsFilled W fm.tables fm.next_table _ p.filled
                  (add_stream-IsFilled W stream key tf W.streams.empty (empty-IsFilled W));
            calm = p.calm;
          })
    | inr (t, e) ↦
        rw (add_flow, e)
          (record {
            filled =
                put-IsFilled W fm.tables t _ p.filled
                  (add_stream-IsFilled W stream key tf (fm.tables t) (p.filled t));
            calm = p.calm;
          })
  ]

  pub untrack_flow-Spares : (fm : FlowMutex W) (entry : ℕ × ℕ) → Spares fm (untrack_flow fm entry)
  unfolding untrack_flow
  untrack_flow-Spares fm (sequence, tf) = record { same_tables = refl; same_panicked = refl }

  -- The maps of the streams of a table may have been emptied, those of `entries` alone.
  record Empties (t : ℕ) (entries : List (ℕ × W.sequences.Carrier)) (fm fm' : FlowMutex W)
      : Type 0 where
    others : (p : ℕ) → (t == p) ≡ false → fm'.tables p ≡ fm.tables p
    outside :
        (stream : ℕ)
        → lookup entries stream ≡ none
        → W.streams.get (fm'.tables t) stream ≡ W.streams.get (fm.tables t) stream
    quiet : fm'.panicked ≡ fm.panicked

  untrack_streams-Empties :
      (t : ℕ) (entries : List (ℕ × W.sequences.Carrier)) (fm : FlowMutex W)
      → Empties t entries fm (fold (untrack_stream t) fm entries)
  unfolding untrack_stream
  untrack_streams-Empties t [] fm = record {
    others = λ p n. refl;
    outside = λ stream n. refl;
    quiet = refl;
  }
  untrack_streams-Empties t ((k, sequences) ∷ entries) fm =
      let q = untrack_streams-Empties t entries (untrack_stream t fm (k, sequences)) in
      let s = fold-Spares untrack_flow untrack_flow-Spares (W.sequences.items sequences) fm in
      let left = without_sequences W sequences (W.sequences.items sequences) in
      record {
        others = λ p n. q.others p n ∙ rw n (ap (λ h. h p) s.same_tables);
        outside = λ stream n.
            q.outside stream (ground (arith, n))
            ∙ rw (same_self t) (
                W.streams.get-set _ k left stream
                ∙ rw (apart k stream sequences entries n)
                    (ap (λ h. W.streams.get (h t) stream) s.same_tables));
        quiet = q.quiet ∙ s.same_panicked;
      }
    where
      apart :
          (k stream : ℕ) (sequences : W.sequences.Carrier)
          (entries : List (ℕ × W.sequences.Carrier))
          → lookup ((k, sequences) ∷ entries) stream ≡ none
          → (k == stream) ≡ false
      apart k stream sequences entries n = ground (arith, n)

  pub untrack_tables-IsPresent :
      (flow : ℕ) (fm : FlowMutex W) → IsPresent fm → IsPresent (untrack_tables flow fm)
  unfolding untrack_tables empty_streams
  untrack_tables-IsPresent flow fm p = elim (Option-cases (W.refs.get fm.flow_map flow)) [
    | inl e ↦ rw (untrack_tables, e) p
    | inr (t, e) ↦
        let streams = W.streams.entries (fm.tables t) in
        let fm' = empty_streams t fm in
        let q = untrack_streams-Empties t streams fm in
        rw (untrack_tables, e)
          (record {
            filled = λ table.
                holds_if (IsFilled W) (t == table) (without_streams W (fm'.tables t) streams)
                  (fm'.tables table)
                  (λ h stream found g.
                    let r = get-without_streams W (fm'.tables t) streams stream found g in
                    p.filled t stream found (sym (q.outside stream r.0) ∙ r.1))
                  (λ h. subst (IsFilled W) (sym (q.others table h)) (p.filled table));
            calm = q.quiet ∙ p.calm;
          })
  ]

  pub untrack_connection-IsPresent :
      (flow carrier : ℕ) (fm : FlowMutex W)
      → IsPresent fm
      → IsPresent (untrack_connection flow carrier fm)
  unfolding untrack_connection
  untrack_connection-IsPresent flow carrier fm p =
      let q = untrack_tables-IsPresent flow fm p in record { filled = q.filled; calm = q.calm }
