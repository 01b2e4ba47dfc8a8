-- ===== src/Examples/Engines.antt =====
-- The engines at concrete captures.
use pcap_sidecar.Common.{
  ℕ, ◌≡◌, refl, String, Bool, true, false, Option, none, some, List, [], ◌∷◌, arith, string_eq,
  nat_eq, ◌==◌, if◌then◌else◌,
}
use pcap_sidecar.Providers.Apply.{Provider}
use pcap_sidecar.Engines.Gopacket.{
  PcapConfig, Calls, StartError, already_started, stopped, Received, ctx_done, next_packet,
  new_pcap, Pcap, start, new_engine,
}
use pcap_sidecar.Engines.Tcpdump.{PathLibs, build_args, find_and_kill}
use pcap_sidecar.Engines.Starts.{start-numbered, start-stuck}

abbrev config : PcapConfig
config = record {
  compat = false;
  iface = "eth0";
  ts_type = "";
  filter = "";
  output = "/pcap/part";
  extension = "pcap";
  snaplen = 0;
  interval = 60;
  ephemerals = none;
}

-- All calls succeed, but that of the transformer when `formats` is false.
abbrev calls_of : Bool → Calls
calls_of formats = record {
  set_snap_len = true;
  set_promisc = true;
  set_timeout = true;
  set_timestamp_source = true;
  activate = true;
  set_bpf_filter = λ filter. true;
  new_transformer = formats;
}

abbrev port_80 : List (Option (Provider ℕ))
port_80 = some (λ f. (f, some "port 80")) ∷ []

abbrev engine : Pcap ℕ
engine = new_engine config 0

abbrev fold_of : String → String → Bool
fold_of s t = s == t

start-numbered_example :
    (p' : Pcap ℕ) × (start {Packet = ℕ} fold_of port_80
        (calls_of true)
        false
        (some 7)
        (next_packet 8 ∷ next_packet 9 ∷ ctx_done ∷ [])
        engine
      ≡ some (stopped, (0, 7) ∷ (1, 8) ∷ (2, 9) ∷ [], p'))
    × (p'.is_active ≡ false)
unfolding new_pcap new_engine
start-numbered_example =
    start-numbered fold_of port_80 (calls_of true) false (some 7) (8 ∷ 9 ∷ []) [] engine refl refl
      refl (ground arith) refl

start-stuck_example :
    (error : StartError) × (p' : Pcap ℕ) × (start {Packet = ℕ} fold_of port_80
        (calls_of false)
        false
        (some 7)
        (ctx_done ∷ [])
        engine
      ≡ some (error, [], p'))
    × ((calls' : Calls) (done' : Bool) (first' : Option ℕ) (events' : List (Received ℕ))
        → start fold_of port_80 calls' done' first' events' p' ≡ some (already_started, [], p'))
unfolding new_pcap new_engine
start-stuck_example =
    start-stuck fold_of port_80 (calls_of false) false (some 7) (ctx_done ∷ []) engine refl
      (ground arith)

abbrev paths : PathLibs
paths = record { itoa = λ n. if n == 0 then "0" else "60"; dir = λ s. "/pcap"; base = λ s. "part" }

test_args :
    build_args paths config "tcp"
    ≡ "-n" ∷ "-Z" ∷ "root" ∷ "-i" ∷ "eth0" ∷ "-s" ∷ "0" ∷ "-w" ∷ "/pcap/part.pcap" ∷ "-G" ∷ "60"
      ∷ "tcp" ∷ []
unfolding build_args
test_args = refl

-- Only the process with the identifier is signalled.
test_find_and_kill :
    find_and_kill 7
      (record { pid = 7; executable = "tcpdump"; kill = true }
        ∷ record { pid = 8; executable = "tcpdump"; kill = true }
        ∷ record { pid = 7; executable = "sh"; kill = true }
        ∷ [])
      (0, 0)
    ≡ (1, 1)
unfolding find_and_kill
test_find_and_kill = refl
