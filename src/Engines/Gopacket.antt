-- ===== src/Engines/Gopacket.antt =====
-- `Pcap`: what its `Start` does with the answers of libpcap and of the transformer.
use pcap_sidecar.Common.{
  ℕ, ◌+◌, ◌%◌, ◌^◌, String, Bool, true, false, not, ◌&&◌, ◌||◌, Option, none, some, List, [], ◌∷◌,
  ltb, leb, string_eq, ◌==◌, if◌then◌else◌,
}
use pcap_sidecar.Filters.TcpFlags.{PcapEphemeralPorts}
use pcap_sidecar.Providers.Apply.{Provider, provide_pcap_filter}

-- `PcapConfig`, as far as an engine reads it.
pub record PcapConfig : Type 0 where
  pub compat : Bool
  pub iface : String
  pub ts_type : String
  pub filter : String
  pub output : String
  pub extension : String
  pub snaplen : ℕ
  pub interval : ℕ
  pub ephemerals : Option PcapEphemeralPorts

-- Whether the calls of one `Start` succeed.
pub record Calls : Type 0 where
  pub set_snap_len : Bool
  pub set_promisc : Bool
  pub set_timeout : Bool
  pub set_timestamp_source : Bool
  pub activate : Bool
  pub set_bpf_filter : String → Bool
  pub new_transformer : Bool

pub data StartError : Type 0 where
  already_started : StartError
  no_handle : StartError
  not_activated : StartError
  bpf_filter_error : StartError
  invalid_format : StartError
  -- The error of the context: the capture has been stopped.
  stopped : StartError

-- What a turn of the loop has received.
pub data Received (Packet : Type 0) : Type 0 where
  ctx_done : Received Packet
  next_packet : Packet → Received Packet

-- `newPcap` returns a handle.
unfoldable pub new_pcap : PcapConfig → Calls → Bool
new_pcap cfg calls =
    calls.set_snap_len
    && (calls.set_promisc
        && (calls.set_timeout && (cfg.ts_type == "" || calls.set_timestamp_source)))

module _ {Packet : Type 0} where
  -- The loop of `Start`: the packets that it applies the transformer to, with their serial numbers;
  -- `none` when it still runs after what it has received.
  unfoldable pub capture : ℕ → List (Received Packet) → Option (List (ℕ × Packet))
  capture counter [] = none
  capture counter (ctx_done ∷ events) = some []
  capture counter (next_packet packet ∷ events) = elim (capture ((counter + 1) % 2 ^ 64) events) [
    | some applied ↦ some (((counter + 1) % 2 ^ 64, packet) ∷ applied)
    | none ↦ none
  ]

  -- The packet before the loop.
  abbrev pub with_first : Option Packet → List (ℕ × Packet) → List (ℕ × Packet)
  with_first none applied = applied
  with_first (some packet) applied = (0, packet) ∷ applied

-- The engine, with the in-process filters that the providers change.
pub record Pcap (F : Type 0) : Type 0 where
  pub config : PcapConfig
  pub is_active : Bool
  pub filters : F

abbrev pub filter_text : Option String → String
filter_text none = ""
filter_text (some filter) = filter

-- The BPF expression, with the filters that making it leaves: none with `compat`.
unfoldable pub bpf_filter :
    {F : Type 0}
    → (String → String → Bool)
    → List (Option (Provider F))
    → Bool
    → PcapConfig
    → F
    → F × String
unfolding provide_pcap_filter
bpf_filter equal_fold providers done cfg f =
    if cfg.compat
    then (f, "")
    else (let (f', filter) = provide_pcap_filter equal_fold done (some cfg.filter) providers f in
        (f', filter_text filter))

module _ {F Packet : Type 0} (equal_fold : String → String → Bool)
    (providers : List (Option (Provider F))) where
  -- `Start`: the error that it returns, the packets that it applies the transformer to, and the
  -- engine after it. `done` is whether the context is done when the expression is made.
  unfoldable pub start :
      Calls
      → Bool
      → Option Packet
      → List (Received Packet)
      → Pcap F
      → Option (StartError × List (ℕ × Packet) × Pcap F)
  unfolding new_pcap bpf_filter capture
  start calls done first events p =
      let (f, filter) = bpf_filter equal_fold providers done p.config p.filters in
      let active = record p { is_active = true } in
      let filtered = record active { filters = f } in
      if p.is_active
      then some (already_started, [], p)
      else if not (new_pcap p.config calls)
      then some (no_handle, [], active)
      else if not calls.activate
      then some (not_activated, [], record p { is_active = false })
      else if not (filter == "") && not (calls.set_bpf_filter filter)
      then some (bpf_filter_error, [], filtered)
      else if not calls.new_transformer
      then some (invalid_format, [], filtered)
      else elim (capture 0 events) [
        | some applied ↦
            some (stopped, with_first first applied, record filtered { is_active = false })
        | none ↦ none
      ]

-- The range of ephemeral ports in `NewPcap`.
unfoldable pub valid_ephemerals : Option PcapEphemeralPorts → PcapEphemeralPorts
valid_ephemerals none = record { min_port = 0x8000; max_port = 0xFFFF }
valid_ephemerals (some eph) =
    if ltb eph.min_port 0x0400 || leb eph.max_port eph.min_port
    then record { min_port = 0x8000; max_port = 0xFFFF }
    else eph

-- `NewPcap`
unfoldable pub new_engine : {F : Type 0} → PcapConfig → F → Pcap F
unfolding valid_ephemerals
new_engine config filters = record {
  config = record config { ephemerals = some (valid_ephemerals config.ephemerals) };
  is_active = false;
  filters = filters;
}
