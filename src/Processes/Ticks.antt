-- ===== src/Processes/Ticks.antt =====
-- What a tick of `ProcessFilterProvider` starts.
use pcap_sidecar.Common.{ℕ, String, Option, none, some, List, [], ◌∷◌}
use pcap_sidecar.Filters.Libs.{FilterLibs}
use pcap_sidecar.Filters.Config.{PcapFilters}
use pcap_sidecar.Processes.Keys.{ProcessInfo, TcpSocket}
use pcap_sidecar.Processes.Provider.{
  ProcessLibs, get_process_pid, get_tcp_sockets, process_view, Tracking,
}

-- `newProcessFilterProvider`
unfoldable pub new_process_filter_provider :
    {L : FilterLibs} (P : ProcessLibs) → PcapFilters L → Tracking L P
new_process_filter_provider P filters = record { filters = filters; sockets = P.texts.empty }

-- A call of `updateFilter` that has its goroutine.
pub record Update (P : ProcessLibs) : Type 0 where
  pub view : P.texts.Carrier
  pub process : ProcessInfo
  pub sockets : List TcpSocket

module _ (P : ProcessLibs) (run_script : String → String → Option String) where
  -- The loop of `setFilter`; `run_script` is the output for the name and the identifier of a process.
  unfoldable pub start_updates : P.texts.Carrier → List ProcessInfo → List (Update P)
  start_updates tracked [] = []
  start_updates tracked (process ∷ processes) =
      let rest = start_updates tracked processes in
      elim (get_tcp_sockets P (run_script process.name (P.itoa process.id))) [
        | some sockets ↦
            record { view = process_view P tracked process; process = process; sockets = sockets }
            ∷ rest
        | none ↦ rest
      ]

  -- `setFilter`
  unfoldable pub set_filter :
      (String → Option (String × ℕ)) → String → P.texts.Carrier → List (Update P)
  unfolding start_updates
  set_filter get_process_info process_names tracked =
      start_updates tracked (get_process_pid P.itoa get_process_info process_names)
