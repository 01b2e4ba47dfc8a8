-- ===== src/Flows/Tables.antt =====
-- The state of `flowMutex`: the tables from flows to streams to sequence numbers to traced flows.
use pcap_sidecar.Common.{
  ℕ, ◌+◌, String, Bool, true, false, Option, none, some, List, [], ◌∷◌, fold, ltb, nat_eq,
  if◌then◌else◌,
}
use pcap_sidecar.Flows.Libs.{FlowLibs, Heap, put}
use pcap_sidecar.Flows.Carriers.{Carrier, release_all, release_panics}

-- `traceAndSpan`
pub record TraceAndSpan : Type 0 where
  pub trace_id : String
  pub span_id : String
  pub stream_id : ℕ

-- The timer of a traced flow: it runs, it has expired and its function has not started, or it is
-- stopped or has started.
pub data Timer : Type 0 where
  running : Timer
  expired : Timer
  over : Timer

pub record TracedFlow : Type 0 where
  pub lock : ℕ
  pub ts : TraceAndSpan
  pub is_active : Bool
  pub unblocker : Timer
  -- The function of the timer has started and waits for the lock.
  pub unblocking : Bool

-- An `untrackConnection` that waits for its timer: the flow and the carrier.
pub record Untracking : Type 0 where
  pub flow : ℕ
  pub carrier : ℕ

pub record FlowMutex (W : FlowLibs) : Type 0 where
  pub mutex_map : W.refs.Carrier
  pub carriers : Heap Carrier
  pub next_carrier : ℕ
  pub traced : Heap TracedFlow
  pub next_traced : ℕ
  pub flow_map : W.refs.Carrier
  pub tables : Heap W.streams.Carrier
  pub next_table : ℕ
  pub requests : W.requests.Carrier
  pub scheduled : List Untracking
  -- A nil pointer was read.
  pub panicked : Bool

-- The key under which a traced flow stands.
abbrev pub key_of_flow : Bool → ℕ → ℕ → ℕ
key_of_flow local seq ack = if local then ack else seq

-- The loop of `Range` in `getTracedFlow`: the last flow with a key below `ref`, and the last flow.
unfoldable pub range_flows : ℕ → List (ℕ × ℕ) → Option ℕ × Option ℕ → Option ℕ × Option ℕ
range_flows ref [] found = found
range_flows ref ((r, tf) ∷ items) (traced, last) =
    range_flows ref items ((if ltb r ref then some tf else traced), some tf)

abbrev pub or_last : Option ℕ × Option ℕ → Option ℕ
or_last (some tf, last) = some tf
or_last (none, last) = last

module _ (W : FlowLibs) where
  -- `sequenceToTracedFlowMapProvider` on the table of a flow.
  unfoldable pub add_stream : ℕ → ℕ → ℕ → W.streams.Carrier → W.streams.Carrier
  add_stream stream key tf table = elim (W.streams.get table stream) [
    | some sequences ↦ table
    | none ↦ W.streams.set table stream (W.sequences.store W.sequences.empty key tf)
  ]

  abbrev pub without_sequences : W.sequences.Carrier → List (ℕ × ℕ) → W.sequences.Carrier
  without_sequences sequences items = fold (λ q item. W.sequences.delete q item.0) sequences items

  abbrev pub without_streams :
      W.streams.Carrier → List (ℕ × W.sequences.Carrier) → W.streams.Carrier
  without_streams table entries = fold (λ t entry. W.streams.del t entry.0) table entries

module _ {W : FlowLibs} where
  -- The function that `getTracedFlow` returns, for the table that it has found, if any: `none` is
  -- the answer false, `some none` a nil flow with the answer true.
  unfoldable pub traced_flow : FlowMutex W → Option ℕ → ℕ → ℕ → Option (Option ℕ)
  unfolding range_flows
  traced_flow fm none ref stream = none
  traced_flow fm (some table) ref stream = elim (W.streams.get (fm.tables table) stream) [
    | none ↦ none
    | some sequences ↦ some (or_last (range_flows ref (W.sequences.items sequences) (none, none)))
  ]

  -- The traced flow that `trackConnection` makes: its timer runs.
  unfoldable pub new_traced : ℕ → TraceAndSpan → FlowMutex W → FlowMutex W
  new_traced carrier ts fm = record fm {
    traced = put fm.traced fm.next_traced (record {
      lock = carrier;
      ts = ts;
      is_active = true;
      unblocker = running;
      unblocking = false;
    });
    next_traced = fm.next_traced + 1;
  }

  -- `GetOrCompute` of the flow's table, and what is computed or done when it is there.
  unfoldable pub add_flow : ℕ → ℕ → ℕ → ℕ → FlowMutex W → FlowMutex W
  unfolding add_stream
  add_flow flow stream key tf fm = elim (W.refs.get fm.flow_map flow) [
    | some table ↦ record fm {
      tables = put fm.tables table (add_stream W stream key tf (fm.tables table));
    }
    | none ↦ record fm {
      flow_map = W.refs.set fm.flow_map flow fm.next_table;
      tables = put fm.tables fm.next_table (add_stream W stream key tf W.streams.empty);
      next_table = fm.next_table + 1;
    }
  ]

  -- `trackConnection` of a trace: the pointer to its traced flow, and the state.
  unfoldable pub track_connection : ℕ → ℕ → ℕ → TraceAndSpan → FlowMutex W → ℕ × FlowMutex W
  unfolding new_traced add_flow
  track_connection carrier flow key ts fm =
      (fm.next_traced, add_flow flow ts.stream_id key fm.next_traced (new_traced carrier ts fm))

  -- The body of `Range` in `untrackConnection`.
  unfoldable pub untrack_flow : FlowMutex W → ℕ × ℕ → FlowMutex W
  untrack_flow fm (sequence, tf) =
      let flow = fm.traced tf in
      record fm {
        traced =
            if flow.is_active
            then put fm.traced tf (record flow { is_active = false; unblocker = over })
            else fm.traced;
        requests = W.requests.del fm.requests flow.ts.trace_id;
      }

  -- The body of `ForEach` for the table `table`: in the end the map of the stream is empty.
  unfoldable pub untrack_stream : ℕ → FlowMutex W → ℕ × W.sequences.Carrier → FlowMutex W
  unfolding untrack_flow
  untrack_stream table fm (stream, sequences) =
      let fm' = fold untrack_flow fm (W.sequences.items sequences) in
      record fm' {
        tables = put fm'.tables table (
            W.streams.set (fm'.tables table) stream
              (without_sequences W sequences (W.sequences.items sequences)));
      }

  -- The first half of `untrackConnection` on the tables, `ForEach`.
  unfoldable pub empty_streams : ℕ → FlowMutex W → FlowMutex W
  unfolding untrack_stream
  empty_streams table fm = fold (untrack_stream table) fm (W.streams.entries (fm.tables table))

  -- The part of `untrackConnection` on the tables, when no other goroutine uses them meanwhile.
  unfoldable pub untrack_tables : ℕ → FlowMutex W → FlowMutex W
  unfolding empty_streams
  untrack_tables flow fm = elim (W.refs.get fm.flow_map flow) [
    | none ↦ fm
    | some table ↦
        let streams = W.streams.entries (fm.tables table) in
        let fm' = empty_streams table fm in
        record fm' {
          tables = put fm'.tables table (without_streams W (fm'.tables table) streams);
          flow_map = W.refs.del fm'.flow_map flow;
        }
  ]

  -- `untrackConnection`: a panic of the wait group is recovered, and the carrier stays in the map.
  unfoldable pub untrack_connection : ℕ → ℕ → FlowMutex W → FlowMutex W
  unfolding untrack_tables
  untrack_connection flow carrier fm =
      let fm' = untrack_tables flow fm in
      record fm' {
        carriers = put fm'.carriers carrier (release_all (fm'.carriers carrier));
        mutex_map =
            if release_panics (fm'.carriers carrier)
            then fm'.mutex_map
            else W.refs.del fm'.mutex_map flow;
      }
