-- ===== src/Fsnotify/Watcher/Defs.antt =====
-- The state of the watcher and its handlers, from pcap-fsnotify/main.go.
use pcap_sidecar.Common.{
  ℕ, ◌+◌, ◌%◌, ◌^◌, String, Bool, true, false, not, ◌&&◌, ◌||◌, Option, none, some, List, [], ◌∷◌,
  ◌++◌, nat_eq, string_eq, ◌==◌, fold, if◌then◌else◌,
}
use pcap_sidecar.Common.Maps.{MapApi}

-- `haxmap`, the key of a file by the groups of `pcapDotExt`, and the test of `tcpdumpwExitSignal`.
pub record WatcherLibs : Type 1 where
  pub counts : MapApi String ℕ
  pub names : MapApi String String
  pub key_of : String → Option String
  pub is_exit_signal : String → Bool

pub record Watcher (W : WatcherLibs) : Type 0 where
  pub is_active : Bool
  pub cancelled : Bool
  pub counters : W.counts.Carrier
  pub last_pcap : W.names.Carrier
  -- The source files that were handed to the exporter, in order.
  pub moved : List String
  -- The reports of a leaked file.
  pub leaks : ℕ

-- The state before the first event, once the directory is watched.
unfoldable pub start : (W : WatcherLibs) → Watcher W
start W = record {
  is_active = true;
  cancelled = false;
  counters = W.counts.empty;
  last_pcap = W.names.empty;
  moved = [];
  leaks = 0;
}

-- An event of the watcher, with the exporter's answer to the export that it may cause.
pub record Event : Type 0 where
  pub is_create : Bool
  pub name : String
  pub export_ok : Bool

-- An entry that the walk of the source directory meets; `failed` if it has no `FileInfo` but an error.
-- A directory that cannot be read has both.
pub record Entry : Type 0 where
  pub path : String
  pub is_dir : Bool
  pub failed : Bool
  pub export_ok : Bool

module _ (W : WatcherLibs) where
  -- `counters.GetOrCompute(key)` and `Add(1)` on a uint64.
  abbrev pub count_of : W.counts.Carrier → String → ℕ
  count_of m key = elim (W.counts.get m key) [ some n ↦ n | none ↦ 0 ]

  unfoldable pub next_iteration : W.counts.Carrier → String → ℕ
  next_iteration m key = (count_of m key + 1) % 2 ^ 64

  abbrev pub holds_name : W.names.Carrier → String → String → Bool
  holds_name m key name = elim (W.names.get m key) [ some held ↦ held == name | none ↦ false ]

  abbrev pub is_pcap : String → Bool
  is_pcap name = elim (W.key_of name) [ some key ↦ true | none ↦ false ]

module _ {W : WatcherLibs} where
  -- `movePcapToGcs` of the file before, then the `CompareAndSwap` of the last name.
  unfoldable pub move_last : String → String → String → Watcher W → Watcher W
  move_last key last src_file s = record s {
    moved = s.moved ++ last ∷ [];
    leaks = if holds_name W s.last_pcap key last then s.leaks else s.leaks + 1;
    last_pcap = W.names.set s.last_pcap key src_file;
  }

  -- The part of `exportPcapFile` after the count: `export_ok` is the exporter's answer.
  unfoldable pub rotate : Bool → String → String → ℕ → Watcher W → Watcher W × Bool
  rotate export_ok key src_file iteration s =
      if iteration == 1
      then (record s { last_pcap = W.names.set s.last_pcap key src_file }, false)
      else elim (W.names.get s.last_pcap key) [
        | none ↦ (record s { last_pcap = W.names.set s.last_pcap key src_file }, false)
        | some last ↦
            if last == ""
            then (record s { last_pcap = W.names.set s.last_pcap key src_file }, false)
            else (move_last key last src_file s, export_ok)
      ]

  unfoldable pub flush_file : Bool → String → Watcher W → Watcher W × Bool
  flush_file export_ok src_file s = (record s { moved = s.moved ++ src_file ∷ [] }, export_ok)

  unfoldable pub count_and_rotate : Bool → String → String → Watcher W → Watcher W × Bool
  unfolding rotate
  count_and_rotate export_ok key src_file s =
      let iteration = next_iteration W s.counters key in
      rotate export_ok key src_file iteration
        (record s { counters = W.counts.set s.counters key iteration })

  -- `exportPcapFile`
  unfoldable pub export_pcap_file : Bool → String → Bool → Watcher W → Watcher W × Bool
  export_pcap_file export_ok src_file flush s =
      if flush && s.is_active then (s, false) else elim (W.key_of src_file) [
        | none ↦ (s, false)
        | some key ↦
            if flush
            then flush_file export_ok src_file s
            else count_and_rotate export_ok key src_file s
      ]

  -- The body of the loop over `watcher.Events`: the loop ends once the watcher is not active.
  unfoldable pub handle : Event → Watcher W → Watcher W
  handle e s =
      if not s.is_active
      then s
      else if e.is_create && is_pcap W e.name
      then (export_pcap_file e.export_ok e.name false s).0
      else if e.is_create && W.is_exit_signal e.name
      then record s { is_active = false; cancelled = true }
      else s

  unfoldable pub handle_all : List Event → Watcher W → Watcher W
  handle_all events s = fold (λ t e. handle e t) s events

  -- The goroutines of `flushSrcDir`, in the order in which they reach the exporter.
  unfoldable pub run_exports : List Entry → Watcher W → Watcher W
  unfolding export_pcap_file
  run_exports order s =
      fold (λ w entry. (export_pcap_file entry.export_ok entry.path true w).0) s order

-- `flushSrcDir`: the number of the files, a uint32, and the goroutines that it starts to export them;
-- `none` where it panics on the nil `FileInfo` of an entry.
unfoldable pub flush_src_dir :
    (Entry → Bool) → List Entry → ℕ × List Entry → Option (ℕ × List Entry)
flush_src_dir validator [] (pending, started) = some (pending, started)
flush_src_dir validator (entry ∷ entries) (pending, started) =
    let next = flush_src_dir validator entries (
      if entry.is_dir || not (validator entry)
      then (pending, started)
      else ((pending + 1) % 2 ^ 32, started ++ entry ∷ [])) in
    if not entry.is_dir && entry.failed then none else next
