-- ===== src/Processes/Tracks.antt =====
-- The tracked sockets after the goroutines of a round.
use pcap_sidecar.Common.{
  ℕ, ◌≡◌, refl, ap, ◌∙◌, String, Bool, true, false, not, ◌&&◌, ◌||◌, some, List, [], ◌∷◌, fold, any,
  arith, nat_eq, string_eq, ◌==◌, if◌then◌else◌, same_self,
}
use pcap_sidecar.Filters.Libs.{FilterLibs}
use pcap_sidecar.Filters.Config.{
  hash_socket_from2tuples, allow_socket, deny_socket, update_no_sockets,
}
use pcap_sidecar.Processes.Keys.{ProcessInfo, TcpSocket}
use pcap_sidecar.Processes.Provider.{
  ProcessLibs, Task, Sockets, socket_of, Tracking, filter_socket, apply_filter, apply_all,
}

abbrev pub same_task : Task → Task → Bool
same_task (k, true) (j, true) = k == j
same_task (k, false) (j, false) = k == j
same_task (k, true) (j, false) = false
same_task (k, false) (j, true) = false

abbrev pub has_task : Task → List Task → Bool
has_task task tasks = any (same_task task) tasks

-- The addresses of the socket can be hashed, as `AllowSocket` and `DenySocket` need.
abbrev pub IsReadable : FilterLibs → TcpSocket → Type 0
IsReadable L socket =
    (hash : ℕ) × (hash_socket_from2tuples L socket.local_addr socket.remote_addr ≡ some hash)

-- The key has a socket, whose addresses can be hashed.
abbrev pub IsUsable : FilterLibs → ProcessInfo → Sockets → String → Type 0
IsUsable L process sockets key =
    (socket : TcpSocket) × (socket_of process sockets key ≡ some socket) × IsReadable L socket

-- What the tasks for a key leave, in their order.
abbrev pub mark : String → Bool → List Task → Bool
mark j tracked tasks = fold (λ b task. if task.0 == j then not task.1 else b) tracked tasks

pub mark_lem :
    (j : String) (tracked : Bool) (tasks : List Task)
    → (has_task (j, true) tasks && has_task (j, false) tasks) ≡ false
    → mark j tracked tasks
      ≡ (not (has_task (j, true) tasks) && (has_task (j, false) tasks || tracked))
mark_lem j tracked [] e = ground arith
mark_lem j tracked ((k, true) ∷ tasks) e =
    mark_lem j (if k == j then false else tracked) tasks (ground (arith, e))
    ∙ ground (arith, e, string_eq.same_iff k j, string_eq.same_iff j k)
mark_lem j tracked ((k, false) ∷ tasks) e =
    mark_lem j (if k == j then true else tracked) tasks (ground (arith, e))
    ∙ ground (arith, e, string_eq.same_iff k j, string_eq.same_iff j k)

pub same_task_self : (task : Task) → same_task task task ≡ true
same_task_self (k, true) = same_self k
same_task_self (k, false) = same_self k

module _ {L : FilterLibs} {P : ProcessLibs} where
  sockets-filter_socket :
      (st : Tracking L P) (socket : TcpSocket) (key : String) (allowed : Bool)
      → IsReadable L socket
      → (filter_socket st socket (key, allowed)).sockets
        ≡ (if allowed then P.texts.del st.sockets key else P.texts.add st.sockets key)
  unfolding filter_socket allow_socket deny_socket update_no_sockets
  sockets-filter_socket st socket key true (hash, e) = rw (update_no_sockets, if◌then◌else◌, e) refl
  sockets-filter_socket st socket key false (hash, e) =
      rw (update_no_sockets, if◌then◌else◌, e) refl

  pub contains_one-filter_socket :
      (st : Tracking L P) (socket : TcpSocket) (task : Task) (j : String)
      → IsReadable L socket
      → P.texts.contains_one (filter_socket st socket task).sockets j
        ≡ (if task.0 == j then not task.1 else P.texts.contains_one st.sockets j)
  contains_one-filter_socket st socket (key, true) j r =
      rw (sockets-filter_socket st socket key true r) (
        ground (
          arith,
          P.texts.contains_one-del st.sockets key j,
          string_eq.same_iff key j,
          string_eq.same_iff j key,
        ))
  contains_one-filter_socket st socket (key, false) j r =
      rw (sockets-filter_socket st socket key false r) (
        ground (
          arith,
          P.texts.contains_one-add st.sockets key j,
          string_eq.same_iff key j,
          string_eq.same_iff j key,
        ))

  pub apply_all-step :
      (process : ProcessInfo) (sockets : Sockets) (task : Task) (tasks : List Task)
      (st : Tracking L P) (socket : TcpSocket)
      → socket_of process sockets task.0 ≡ some socket
      → apply_all process sockets (task ∷ tasks) st
        ≡ apply_all process sockets tasks (filter_socket st socket task)
  unfolding apply_all apply_filter
  apply_all-step process sockets task tasks st socket e = rw (apply_all, apply_filter, e) refl

  -- All tasks run, and leave the marks.
  pub apply_all-mark :
      (process : ProcessInfo) (sockets : Sockets) (tasks : List Task) (st : Tracking L P)
      → ((task : Task) → has_task task tasks ≡ true → IsUsable L process sockets task.0)
      → (st' : Tracking L P) × (apply_all process sockets tasks st ≡ some st')
        × ((j : String)
            → P.texts.contains_one st'.sockets j ≡ mark j (P.texts.contains_one st.sockets j) tasks)
  unfolding apply_all
  apply_all-mark process sockets [] st usable = (st, refl, λ j. refl)
  apply_all-mark process sockets (task ∷ tasks) st usable =
      let (socket, e, readable) = usable task (ground (arith, same_task_self task)) in
      let (st', d, marks) =
        apply_all-mark process sockets tasks (filter_socket st socket task)
          (λ t h. usable t (ground (arith, h))) in
      (
        st',
        apply_all-step process sockets task tasks st socket e ∙ d,
        λ j.
            marks j
            ∙ ap (λ b. mark j b tasks) (contains_one-filter_socket st socket task j readable),
      )
