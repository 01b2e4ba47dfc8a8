-- ===== src/Processes/Provider.antt =====
-- `ProcessFilterProvider`: its state, one round of a process, and the rounds that a tick starts.
use pcap_sidecar.Common.{
  ℕ, ◌≡◌, String, Bool, true, false, not, ◌&&◌, ◌||◌, Option, none, some, List, [], ◌∷◌, ◌++◌, map,
  fold, nat_eq, string_eq, ◌==◌, if◌then◌else◌,
}
use pcap_sidecar.Common.Maps.{lookup}
use pcap_sidecar.Common.Sets.{SetApi}
use pcap_sidecar.Filters.Libs.{FilterLibs}
use pcap_sidecar.Filters.Config.{PcapFilters, allow_socket, deny_socket}
use pcap_sidecar.Providers.Texts.{split, split_on}
use pcap_sidecar.Processes.Keys.{
  ProcessInfo, TcpSocket, new_process_key, is_process_key, new_socket_key, to_socket,
}

-- What the provider calls: `mapset` with its differences, `strconv.Itoa`, and the parser of a socket
-- of encoding/json.
pub record ProcessLibs : Type 1 where
  pub texts : SetApi String
  pub difference : texts.Carrier → texts.Carrier → texts.Carrier
  pub contains_one-difference :
      (s t : texts.Carrier) (x : String)
      → texts.contains_one (difference s t) x
        ≡ (texts.contains_one s x && not (texts.contains_one t x))
  pub itoa : ℕ → String
  pub unmarshal : String → Option TcpSocket

-- A goroutine of `filterSockets`: the key, and whether its socket is allowed.
abbrev pub Task : Type 0
Task = String × Bool

-- `sockets` of a round: a Go map, later entries first.
abbrev pub Sockets : Type 0
Sockets = List (String × TcpSocket)

-- The lines that are sockets.
unfoldable pub parse_lines : (String → Option TcpSocket) → List String → List TcpSocket
parse_lines unmarshal [] = []
parse_lines unmarshal (line ∷ lines) =
    let rest = parse_lines unmarshal lines in
    if line == "" then rest else elim (unmarshal line) [ some socket ↦ socket ∷ rest | none ↦ rest ]

module _ (itoa : ℕ → String) (get_process_info : String → Option (String × ℕ)) where
  -- The loop of `getProcessPID`; `get_process_info` is the answer of supervisord.
  unfoldable pub find_processes : List String → List ProcessInfo
  find_processes [] = []
  find_processes (name ∷ names) =
      let rest = find_processes names in
      if name == "" then rest else elim (get_process_info name) [
        | some (reply, pid) ↦
            record { key = new_process_key itoa reply pid; name = name; id = pid } ∷ rest
        | none ↦ rest
      ]

  unfoldable pub get_process_pid : String → List ProcessInfo
  unfolding find_processes
  get_process_pid process_names = find_processes (split process_names)

module _ (P : ProcessLibs) where
  -- `getTCPsockets` on the output of its script; `none` is an error.
  unfoldable pub get_tcp_sockets : Option String → Option (List TcpSocket)
  unfolding parse_lines
  get_tcp_sockets none = none
  get_tcp_sockets (some output) = some (parse_lines P.unmarshal (split_on 10 output))

  abbrev pub add_to_view : ProcessInfo → P.texts.Carrier → String → P.texts.Carrier
  add_to_view process view key = if is_process_key process key then P.texts.add view key else view

  -- `processView`
  unfoldable pub process_view : P.texts.Carrier → ProcessInfo → P.texts.Carrier
  process_view sockets process = fold (add_to_view process) P.texts.empty (P.texts.to_slice sockets)

abbrev pub keys_of : Sockets → List String
keys_of sockets = map (λ entry. entry.0) sockets

module _ (P : ProcessLibs) where
  -- The goroutines that `filterSockets` starts: denials of the keys that are in the map and not in
  -- the view, and then the other way round.
  unfoldable pub planned_tasks : P.texts.Carrier → Sockets → List Task
  planned_tasks view sockets =
      let addrs = fold P.texts.add P.texts.empty (keys_of sockets) in
      let denied = P.texts.to_slice (P.difference addrs view) in
      let allowed = P.texts.to_slice (P.difference view addrs) in
      map (λ key. (key, false)) denied ++ map (λ key. (key, true)) allowed

-- The loop of `updateFilter`.
abbrev pub add_owned : ProcessInfo → Sockets → TcpSocket → Sockets
add_owned process socks socket =
    if socket.pid == process.id || socket.program == process.name
    then (new_socket_key process socket, socket) ∷ socks
    else socks

unfoldable pub owned_sockets : ProcessInfo → List TcpSocket → Sockets
owned_sockets process sockets = fold (add_owned process) [] sockets

-- The socket of a key: from the map, or made of the key.
unfoldable pub socket_of : ProcessInfo → Sockets → String → Option TcpSocket
socket_of process sockets key = elim (lookup sockets key) [
  | some socket ↦ some socket
  | none ↦ to_socket process key
]

pub record Tracking (L : FilterLibs) (P : ProcessLibs) : Type 0 where
  pub filters : PcapFilters L
  pub sockets : P.texts.Carrier

module _ {L : FilterLibs} {P : ProcessLibs} where
  -- The end of `applyFilter`.
  unfoldable pub filter_socket : Tracking L P → TcpSocket → Task → Tracking L P
  filter_socket st socket (key, true) =
      let (filters, ok) = allow_socket st.filters socket.local_addr socket.remote_addr in
      record { filters = filters; sockets = if ok then P.texts.del st.sockets key else st.sockets }
  filter_socket st socket (key, false) =
      let (filters, ok) = deny_socket st.filters socket.local_addr socket.remote_addr in
      record { filters = filters; sockets = if ok then P.texts.add st.sockets key else st.sockets }

  -- `applyFilter`; `none` is a panic.
  unfoldable pub apply_filter : ProcessInfo → Sockets → Tracking L P → Task → Option (Tracking L P)
  unfolding filter_socket
  apply_filter process sockets st task = elim (socket_of process sockets task.0) [
    | some socket ↦ some (filter_socket st socket task)
    | none ↦ none
  ]

  unfoldable pub apply_all :
      ProcessInfo → Sockets → List Task → Tracking L P → Option (Tracking L P)
  unfolding apply_filter
  apply_all process sockets [] st = some st
  apply_all process sockets (task ∷ tasks) st = elim (apply_filter process sockets st task) [
    | some st' ↦ apply_all process sockets tasks st'
    | none ↦ none
  ]

  -- `filterSockets`; its goroutines run in the order that `schedule` gives.
  unfoldable pub filter_sockets :
      (List Task → List Task)
      → P.texts.Carrier
      → ProcessInfo
      → Sockets
      → Tracking L P
      → Option (Tracking L P)
  unfolding apply_all planned_tasks
  filter_sockets schedule view process sockets st =
      apply_all process sockets (schedule (planned_tasks P view sockets)) st

  -- `updateFilter`
  unfoldable pub update_filter :
      (List Task → List Task)
      → P.texts.Carrier
      → ProcessInfo
      → List TcpSocket
      → Tracking L P
      → Option (Tracking L P)
  unfolding filter_sockets owned_sockets
  update_filter schedule view process sockets st =
      filter_sockets schedule view process (owned_sockets process sockets) st
