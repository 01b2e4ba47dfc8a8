-- ===== src/Processes/Panics.antt =====
-- No round panics on a key that it cannot take apart.
use pcap_sidecar.Common.{
  ◌≡◌, refl, sym, ap, subst, ◌∙◌, String, Bool, true, false, not, ◌||◌, none, some, List, [], ◌∷◌,
  length, arith, string_eq, ◌==◌, if◌then◌else◌, Bool-cases, Option-cases, inl, inr,
}
use pcap_sidecar.Common.Members.{is_member}
use pcap_sidecar.Common.Maps.{lookup}
use pcap_sidecar.Filters.Libs.{FilterLibs}
use pcap_sidecar.Filters.Config.{
  hash_socket_from2tuples, allow_socket, deny_socket, update_no_sockets,
}
use pcap_sidecar.Processes.Keys.{ProcessInfo, TcpSocket, split_n, to_socket, new_socket_key}
use pcap_sidecar.Processes.Parts.{of_parts-length, length-split_n-new_socket_key}
use pcap_sidecar.Processes.Provider.{
  ProcessLibs, keys_of, Task, Sockets, socket_of, owned_sockets, planned_tasks, Tracking,
  filter_socket, apply_all, filter_sockets, update_filter,
}
use pcap_sidecar.Processes.Tracks.{
  has_task, contains_one-filter_socket, apply_all-step, same_task_self, same_task,
}
use pcap_sidecar.Processes.Rounds.{
  IsSchedule, is_reported, is_member-owned_sockets, has_task-concerned,
}

-- Every key of the set has the parts that `toSocket` reads.
abbrev pub IsKeyed : (P : ProcessLibs) → P.texts.Carrier → Type 0
IsKeyed P s = (j : String) → P.texts.contains_one s j ≡ true → length (split_n j 3) ≡ 4

socket_of-keyed :
    (process : ProcessInfo) (sockets : Sockets) (j : String)
    → length (split_n j 3) ≡ 4
    → (socket : TcpSocket) × (socket_of process sockets j ≡ some socket)
unfolding to_socket socket_of
socket_of-keyed process sockets j e = elim (Option-cases (lookup sockets j)) [
  | inr (socket, d) ↦ (socket, rw (socket_of, d) refl)
  | inl d ↦
      let (socket, h) = of_parts-length process (split_n j 3) e in (socket, rw (socket_of, d) h)
]

reported-keyed :
    (process : ProcessInfo) (sockets : List TcpSocket) (j : String)
    → is_reported process sockets j ≡ true
    → length (split_n j 3) ≡ 4
reported-keyed process [] j e = absurd (ground (arith, e))
reported-keyed process (socket ∷ sockets) j e =
    elim (Bool-cases (j == new_socket_key process socket)) [
      | inl h ↦
          subst (λ k. length (split_n k 3) ≡ 4) (sym ((string_eq.same_iff j _).0 h))
            (length-split_n-new_socket_key process socket)
      | inr h ↦ reported-keyed process sockets j (ground (arith, e, h))
    ]

module _ {L : FilterLibs} {P : ProcessLibs} where
  sockets-filter_socket_unreadable :
      (st : Tracking L P) (socket : TcpSocket) (key : String) (allowed : Bool)
      → hash_socket_from2tuples L socket.local_addr socket.remote_addr ≡ none
      → (filter_socket st socket (key, allowed)).sockets ≡ st.sockets
  unfolding filter_socket allow_socket deny_socket update_no_sockets
  sockets-filter_socket_unreadable st socket key true e =
      rw (update_no_sockets, if◌then◌else◌, e) refl
  sockets-filter_socket_unreadable st socket key false e =
      rw (update_no_sockets, if◌then◌else◌, e) refl

  -- Only a denial adds a key, its own.
  filter_socket_adds :
      (st : Tracking L P) (socket : TcpSocket) (task : Task) (j : String)
      → P.texts.contains_one (filter_socket st socket task).sockets j ≡ true
      → (P.texts.contains_one st.sockets j || same_task (j, false) task) ≡ true
  filter_socket_adds st socket (key, a) j e =
      elim (Option-cases (hash_socket_from2tuples L socket.local_addr socket.remote_addr)) [
        | inr h ↦
            by_cases _ (P.texts.contains_one st.sockets j) a
              (e, contains_one-filter_socket st socket (key, a) j h)
        | inl h ↦
            let old : P.texts.contains_one st.sockets j ≡ true =
              ap (λ s. P.texts.contains_one s j)
                (sym (sockets-filter_socket_unreadable st socket key a h))
              ∙ e in
            ground (arith, old)
      ]
    where
      by_cases :
          (now old a : Bool)
          → (now ≡ true) × (now ≡ (if key == j then not a else old))
          → (old || same_task (j, false) (key, a)) ≡ true
      by_cases now old true (e, d) = ground (arith, e, d)
      by_cases now old false (e, d) =
          ground (arith, e, d, string_eq.same_iff key j, string_eq.same_iff j key)

  apply_all_adds :
      (process : ProcessInfo) (sockets : Sockets) (tasks : List Task) (st : Tracking L P)
      → ((task : Task)
          → has_task task tasks ≡ true
          → (socket : TcpSocket) × (socket_of process sockets task.0 ≡ some socket))
      → (st' : Tracking L P) × (apply_all process sockets tasks st ≡ some st')
        × ((j : String)
            → P.texts.contains_one st'.sockets j ≡ true
            → (P.texts.contains_one st.sockets j || has_task (j, false) tasks) ≡ true)
  unfolding apply_all
  apply_all_adds process sockets [] st found = (st, refl, λ j e. ground (arith, e))
  apply_all_adds process sockets (task ∷ tasks) st found =
      let (socket, e) = found task (ground (arith, same_task_self task)) in
      let (st', d, adds) =
        apply_all_adds process sockets tasks (filter_socket st socket task)
          (λ t h. found t (ground (arith, h))) in
      (
        st',
        apply_all-step process sockets task tasks st socket e ∙ d,
        λ j h. ground (arith, adds j h, filter_socket_adds st socket task j),
      )

  -- One round of a process, with any view of keys that have the parts of a socket's key, and its
  -- goroutines in any order, does not panic, and the tracked keys have those parts after it when they
  -- had them before it, whether the addresses can be hashed or not.
  pub update_filter-IsKeyed :
      (schedule : List Task → List Task) (view : P.texts.Carrier) (process : ProcessInfo)
      (sockets : List TcpSocket) (st : Tracking L P)
      → IsSchedule schedule
      → IsKeyed P view
      → IsKeyed P st.sockets
      → (st' : Tracking L P) × (update_filter schedule view process sockets st ≡ some st')
        × IsKeyed P st'.sockets
  unfolding update_filter filter_sockets
  update_filter-IsKeyed schedule view process sockets st sched keyed_view keyed =
      let owned = owned_sockets process sockets in
      let reported : (j : String) → is_member j (keys_of owned) ≡ true → length (split_n j 3) ≡ 4 =
        λ j h.
          reported-keyed process sockets j (sym (is_member-owned_sockets process sockets j) ∙ h) in
      let (st', e, adds) =
        apply_all_adds process owned (schedule (planned_tasks P view owned)) st (λ task h.
          socket_of-keyed process owned task.0
            (concerned owned reported task (sym (sched (planned_tasks P view owned) task) ∙ h))) in
      (
        st',
        e,
        λ j h. elim (Bool-cases (P.texts.contains_one st.sockets j)) [
          | inl old ↦ keyed j old
          | inr new ↦
              concerned owned reported (j, false)
                (sym (sched (planned_tasks P view owned) (j, false))
                  ∙ ground (arith, adds j h, new))
        ],
      )
    where
      concerned :
          (owned : Sockets)
          → ((j : String) → is_member j (keys_of owned) ≡ true → length (split_n j 3) ≡ 4)
          → (task : Task) → has_task task (planned_tasks P view owned) ≡ true
          → length (split_n task.0 3) ≡ 4
      concerned owned reported task h = elim (Bool-cases (P.texts.contains_one view task.0)) [
        | inl seen ↦ keyed_view task.0 seen
        | inr unseen ↦
            reported task.0 (ground (arith, has_task-concerned P view owned task h, unseen))
      ]
