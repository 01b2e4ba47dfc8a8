-- ===== src/Processes/Rounds.antt =====
-- The sockets that a round tracks.
use Prim.Native.String.{◌++◌ as concat}
use text.Mathlib.Text.{starts_with}
use text.Mathlib.TextPositions.{starts_with-append}
use pcap_sidecar.Common.{
  ◌≡◌, refl, sym, ap, subst, ◌∙◌, String, Bool, true, false, not, ◌&&◌, ◌||◌, some, List, [], ◌∷◌,
  ◌++◌, map, fold, any, arith, nat_eq, string_eq, ◌==◌, if◌then◌else◌, Bool-cases, inl, inr,
}
use pcap_sidecar.Common.Members.{any-fold, is_member, contains_one-set_of}
use pcap_sidecar.Filters.Libs.{FilterLibs}
use pcap_sidecar.Processes.Keys.{ProcessInfo, TcpSocket, is_process_key, new_socket_key}
use pcap_sidecar.Processes.Provider.{
  ProcessLibs, keys_of, planned_tasks, add_owned, add_to_view, Task, Sockets, process_view,
  owned_sockets, Tracking, filter_sockets, update_filter,
}
use pcap_sidecar.Processes.Tracks.{has_task, IsUsable, mark_lem, apply_all-mark}

abbrev pub reports : ProcessInfo → String → TcpSocket → Bool
reports process j socket =
    (socket.pid == process.id || socket.program == process.name)
    && j == new_socket_key process socket

-- The script has reported a socket of the process with this key.
abbrev pub is_reported : ProcessInfo → List TcpSocket → String → Bool
is_reported process sockets j = any (reports process j) sockets

abbrev pub IsSchedule : (List Task → List Task) → Type 0
IsSchedule schedule =
    (tasks : List Task) (task : Task) → has_task task (schedule tasks) ≡ has_task task tasks

has_task-tasks :
    (denied allowed : List String) (j : String) (a : Bool)
    → has_task (j, a) (map (λ key. (key, false)) denied ++ map (λ key. (key, true)) allowed)
      ≡ (if a then is_member j allowed else is_member j denied)
has_task-tasks [] [] j true = refl
has_task-tasks [] [] j false = refl
has_task-tasks [] (k ∷ allowed) j true = ap (λ b. (j == k) || b) (has_task-tasks [] allowed j true)
has_task-tasks [] (k ∷ allowed) j false = has_task-tasks [] allowed j false
has_task-tasks (k ∷ denied) allowed j true = has_task-tasks denied allowed j true
has_task-tasks (k ∷ denied) allowed j false =
    ap (λ b. (j == k) || b) (has_task-tasks denied allowed j false)

pub is_member-owned_sockets :
    (process : ProcessInfo) (sockets : List TcpSocket) (j : String)
    → is_member j (keys_of (owned_sockets process sockets)) ≡ is_reported process sockets j
unfolding owned_sockets
is_member-owned_sockets process sockets j =
    any-fold (add_owned process) (λ socks. is_member j (keys_of socks)) (reports process j)
      (λ socks socket. ground arith) [] sockets
    ∙ ground arith

any-and :
    (p : String → Bool) (j : String) (xs : List String)
    → any (λ x. p x && j == x) xs ≡ (p j && is_member j xs)
any-and p j [] = ground arith
any-and p j (x ∷ xs) = elim (Bool-cases (j == x)) [
  | inl h ↦ ground (arith, h, any-and p j xs, ap p ((string_eq.same_iff j x).0 h))
  | inr h ↦ ground (arith, h, any-and p j xs)
]

is_process_key-reported :
    (process : ProcessInfo) (sockets : List TcpSocket) (j : String)
    → is_reported process sockets j ≡ true
    → is_process_key process j ≡ true
unfolding is_process_key new_socket_key
is_process_key-reported process [] j e = absurd (ground (arith, e))
is_process_key-reported process (socket ∷ sockets) j e =
    elim (Bool-cases (j == new_socket_key process socket)) [
      | inl h ↦
          subst (λ k. starts_with k (concat process.key "/") ≡ true)
            (sym ((string_eq.same_iff j _).0 h)) (starts_with-append (concat process.key "/") _)
      | inr h ↦ is_process_key-reported process sockets j (ground (arith, e, h))
    ]

module _ (P : ProcessLibs) where
  contains_one-process_view :
      (sockets : P.texts.Carrier) (process : ProcessInfo) (j : String)
      → P.texts.contains_one (process_view P sockets process) j
        ≡ (is_process_key process j && P.texts.contains_one sockets j)
  unfolding process_view
  contains_one-process_view sockets process j =
      any-fold (add_to_view P process) (λ view. P.texts.contains_one view j)
        (λ key. is_process_key process key && j == key)
        (λ view key. ground (arith, P.texts.contains_one-add view key j)) P.texts.empty
        (P.texts.to_slice sockets)
      ∙ ground (
        arith,
        P.texts.contains_one-empty j,
        any-and (is_process_key process) j (P.texts.to_slice sockets),
        P.texts.any-to_slice sockets j,
      )

module _ (P : ProcessLibs) (view : P.texts.Carrier) (sockets : Sockets) where
  pub has_task-denied :
      (j : String)
      → has_task (j, false) (planned_tasks P view sockets)
        ≡ (is_member j (keys_of sockets) && not (P.texts.contains_one view j))
  unfolding planned_tasks
  has_task-denied j =
      let addrs = fold P.texts.add P.texts.empty (keys_of sockets) in
      has_task-tasks (P.texts.to_slice (P.difference addrs view))
        (P.texts.to_slice (P.difference view addrs)) j false
      ∙ P.texts.any-to_slice (P.difference addrs view) j
      ∙ P.contains_one-difference addrs view j
      ∙ ap (λ b. b && not (P.texts.contains_one view j))
          (contains_one-set_of P.texts (keys_of sockets) j)

  has_task-allowed :
      (j : String)
      → has_task (j, true) (planned_tasks P view sockets)
        ≡ (P.texts.contains_one view j && not (is_member j (keys_of sockets)))
  unfolding planned_tasks
  has_task-allowed j =
      let addrs = fold P.texts.add P.texts.empty (keys_of sockets) in
      has_task-tasks (P.texts.to_slice (P.difference addrs view))
        (P.texts.to_slice (P.difference view addrs)) j true
      ∙ P.texts.any-to_slice (P.difference view addrs) j
      ∙ P.contains_one-difference view addrs j
      ∙ ap (λ b. P.texts.contains_one view j && not b)
          (contains_one-set_of P.texts (keys_of sockets) j)

  -- Every task is about a key of the map or of the view.
  pub has_task-concerned :
      (task : Task)
      → has_task task (planned_tasks P view sockets) ≡ true
      → (is_member task.0 (keys_of sockets) || P.texts.contains_one view task.0) ≡ true
  has_task-concerned (j, true) h = ground (arith, h, has_task-allowed j)
  has_task-concerned (j, false) h = ground (arith, h, has_task-denied j)

module _ {L : FilterLibs} {P : ProcessLibs} where
  -- What a round leaves, when each of the keys it is about has a socket whose addresses can be hashed.
  filter_sockets-tracks :
      (schedule : List Task → List Task) (view : P.texts.Carrier) (process : ProcessInfo)
      (sockets : Sockets) (st : Tracking L P)
      → IsSchedule schedule
      → ((j : String)
          → (is_member j (keys_of sockets) || P.texts.contains_one view j) ≡ true
          → IsUsable L process sockets j)
      → (st' : Tracking L P) × (filter_sockets schedule view process sockets st ≡ some st')
        × ((j : String)
            → P.texts.contains_one st'.sockets j ≡ (
                if P.texts.contains_one view j
                then is_member j (keys_of sockets) && P.texts.contains_one st.sockets j
                else is_member j (keys_of sockets) || P.texts.contains_one st.sockets j))
  unfolding filter_sockets
  filter_sockets-tracks schedule view process sockets st sched usable =
      let tasks = schedule (planned_tasks P view sockets) in
      let (st', e, marks) = apply_all-mark process sockets tasks st (λ task h. usable task.0 (
        has_task-concerned P view sockets task
          (sym (sched (planned_tasks P view sockets) task) ∙ h))) in
      (
        st',
        e,
        λ j.
            let denied : has_task (j, false) tasks
                ≡ (is_member j (keys_of sockets) && not (P.texts.contains_one view j)) =
              sched (planned_tasks P view sockets) (j, false) ∙ has_task-denied P view sockets j in
            let allowed : has_task (j, true) tasks
                ≡ (P.texts.contains_one view j && not (is_member j (keys_of sockets))) =
              sched (planned_tasks P view sockets) (j, true) ∙ has_task-allowed P view sockets j in
            marks j
            ∙ mark_lem j (P.texts.contains_one st.sockets j) tasks (ground (arith, denied, allowed))
            ∙ ground (arith, denied, allowed),
      )

  -- One round of a process, when its view is taken of the sockets that are tracked now, its
  -- goroutines run in any order, and each key of its own or reported one has a socket whose addresses
  -- can be hashed: it does not panic, and the tracked keys of the process are then those of the
  -- reported sockets, and the other tracked keys, such as those made with an earlier PID of the
  -- process, stay as they were.
  pub update_filter-tracks :
      (schedule : List Task → List Task) (process : ProcessInfo) (sockets : List TcpSocket)
      (st : Tracking L P)
      → IsSchedule schedule
      → ((j : String)
          → (is_reported process sockets j
              || (is_process_key process j && P.texts.contains_one st.sockets j))
            ≡ true
          → IsUsable L process (owned_sockets process sockets) j)
      → (st' : Tracking L P) × (update_filter schedule
            (process_view P st.sockets process)
            process
            sockets
            st
          ≡ some st')
        × ((j : String)
            → P.texts.contains_one st'.sockets j ≡ (
                if is_process_key process j
                then is_reported process sockets j
                else P.texts.contains_one st.sockets j))
  unfolding update_filter
  update_filter-tracks schedule process sockets st sched usable =
      let view = process_view P st.sockets process in
      let owned = owned_sockets process sockets in
      let (st', e, tracked) = filter_sockets-tracks schedule view process owned st sched (λ j h.
        usable j (
          ground (
            arith,
            h,
            is_member-owned_sockets process sockets j,
            contains_one-process_view P st.sockets process j,
          ))) in
      (
        st',
        e,
        λ j.
            tracked j
            ∙ ground (
              arith,
              is_member-owned_sockets process sockets j,
              contains_one-process_view P st.sockets process j,
              is_process_key-reported process sockets j,
            ),
      )
