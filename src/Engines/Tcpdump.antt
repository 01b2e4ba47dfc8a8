-- ===== src/Engines/Tcpdump.antt =====
-- `Tcpdump`: the arguments of the process, and what its `Start` does.
use Prim.Native.String.{◌++◌ as concat}
use pcap_sidecar.Common.{
  ℕ, ◌+◌, ◌%◌, ◌^◌, String, Bool, true, false, not, ◌&&◌, Option, List, [], ◌∷◌, ◌++◌, ltb, nat_eq,
  string_eq, ◌==◌, if◌then◌else◌,
}
use pcap_sidecar.Providers.Apply.{Provider}
use pcap_sidecar.Engines.Gopacket.{PcapConfig, Pcap, bpf_filter}

-- What the engine calls: `fmt.Sprintf("%d")`, and `Dir` and `Base` of path/filepath.
pub record PathLibs : Type 0 where
  pub itoa : ℕ → String
  pub dir : String → String
  pub base : String → String

-- `buildArgs`, with the BPF expression as an argument.
unfoldable pub build_args : PathLibs → PcapConfig → String → List String
build_args libs cfg filter =
    ("-n" ∷ "-Z" ∷ "root" ∷ "-i" ∷ cfg.iface ∷ "-s" ∷ libs.itoa cfg.snaplen ∷ [])
    ++ ((if cfg.output == "stdout"
          then []
          else "-w"
            ∷ concat (libs.dir cfg.output)
                (concat "/" (concat (libs.base cfg.output) (concat "." cfg.extension)))
            ∷ [])
        ++ ((if ltb 0 cfg.interval then "-G" ∷ libs.itoa cfg.interval ∷ [] else [])
            ++ (if filter == "" then [] else filter ∷ [])))

-- A process of the list: its identifier, its executable, and whether a signal to it succeeds.
pub record Process : Type 0 where
  pub pid : ℕ
  pub executable : String
  pub kill : Bool

-- `findAndKill` on the list of the processes: two counters of type uint32.
unfoldable pub find_and_kill : ℕ → List Process → ℕ × ℕ → ℕ × ℕ
find_and_kill pid [] counters = counters
find_and_kill pid (p ∷ processes) (kills, procs) = find_and_kill pid processes (
    if p.executable == "tcpdump" && p.pid == pid
    then ((if p.kill then (kills + 1) % 2 ^ 32 else kills), (procs + 1) % 2 ^ 32)
    else (kills, procs))

pub data TcpdumpEnd : Type 0 where
  already_started : TcpdumpEnd
  not_started : TcpdumpEnd
  -- The error of the context, joined with the others: whether the process was still there at the
  -- deadline or has answered an error, and whether the processes could not be listed.
  ended : Bool → Bool → TcpdumpEnd

module _ {F : Type 0} (libs : PathLibs) (equal_fold : String → String → Bool)
    (providers : List (Option (Provider F))) where
  -- `Start`, which returns once the context is done: its end, the arguments of the process, and the
  -- engine after it. `cmd_start` is whether the process starts with the arguments.
  unfoldable pub start_tcpdump :
      (List String → Bool) → Bool → Bool → Bool → Pcap F → TcpdumpEnd × List String × Pcap F
  unfolding build_args bpf_filter
  start_tcpdump cmd_start done wait_error kill_error t =
      let (f, filter) = bpf_filter equal_fold providers done t.config t.filters in
      let args = build_args libs t.config filter in
      if t.is_active
      then (already_started, [], t)
      else if not (cmd_start args)
      then (not_started, args, record t { is_active = true; filters = f })
      else (ended wait_error kill_error, args, record t { is_active = false; filters = f })
