-- ===== src/Examples/Processes.antt =====
-- A process with a new socket, a closed one, and one of an earlier PID.
use pcap_sidecar.Common.{
  ◌≡◌, refl, sym, subst, String, Bool, true, false, ◌&&◌, ◌||◌, some, [], ◌∷◌, length, arith,
  string_eq, nat_eq, ◌==◌, if◌then◌else◌, Bool-cases, inl, inr,
}
use pcap_sidecar.Filters.Config.{new_pcap_filters, hash_socket_from2tuples, hash2tuple}
use pcap_sidecar.Processes.Keys.{
  ProcessInfo, TcpSocket, new_process_key, new_socket_key, to_socket, split_n, is_process_key,
}
use pcap_sidecar.Processes.Parts.{no_slash, to_socket-new_socket_key}
use pcap_sidecar.Processes.Provider.{
  Tracking, owned_sockets, socket_of, process_view, update_filter,
}
use pcap_sidecar.Processes.Tracks.{IsUsable}
use pcap_sidecar.Processes.Rounds.{is_reported, IsSchedule, update_filter-tracks}
use pcap_sidecar.Processes.Panics.{IsKeyed, update_filter-IsKeyed}
use pcap_sidecar.Samples.Libs.{sample_libs}
use pcap_sidecar.Samples.Processes.{process_libs}

abbrev web : ProcessInfo
web = record { key = "web:7"; name = "web"; id = 7 }

abbrev opened : TcpSocket
opened = record {
  protocol = "tcp";
  local_addr = "10.0.0.1:80";
  remote_addr = "10.0.0.2:4000";
  program = "web";
  pid = 7;
}

abbrev opened_key : String
opened_key = "web:7/tcp/10.0.0.1:80/10.0.0.2:4000"

abbrev closed_key : String
closed_key = "web:7/tcp/10.0.0.2:4000/10.0.0.1:80"

abbrev earlier_key : String
earlier_key = "web:3/tcp/10.0.0.1:80/10.0.0.2:4000"

abbrev tracking : Tracking sample_libs process_libs
tracking = record {
  filters = new_pcap_filters sample_libs;
  sockets = closed_key ∷ earlier_key ∷ [];
}

test_keys :
    (new_socket_key web opened ≡ opened_key)
    × (new_process_key process_libs.itoa "web" 7 ≡ web.key)
    × (is_process_key web closed_key ≡ true)
    × (is_process_key web earlier_key ≡ false)
unfolding new_socket_key new_process_key is_process_key
test_keys = (refl, refl, refl, refl)

IsUsable-opened : IsUsable sample_libs web (owned_sockets web (opened ∷ [])) opened_key
unfolding owned_sockets new_socket_key socket_of hash_socket_from2tuples hash2tuple
IsUsable-opened = (opened, refl, (_, refl))

IsUsable-closed : IsUsable sample_libs web (owned_sockets web (opened ∷ [])) closed_key
unfolding owned_sockets new_socket_key socket_of hash_socket_from2tuples hash2tuple to_socket
    split_n
IsUsable-closed = (_, refl, (_, refl))

abbrev is_concerned : String → Bool
is_concerned j =
    is_reported web (opened ∷ []) j
    || (is_process_key web j && process_libs.texts.contains_one tracking.sockets j)

test_concerned : is_concerned earlier_key ≡ false
unfolding new_socket_key is_process_key
test_concerned = refl

usable :
    (j : String)
    → is_concerned j ≡ true
    → IsUsable sample_libs web (owned_sockets web (opened ∷ [])) j
unfolding new_socket_key
usable j h = elim (Bool-cases (j == opened_key)) [
  | inl e ↦
      subst (IsUsable sample_libs web (owned_sockets web (opened ∷ [])))
        (sym ((string_eq.same_iff j _).0 e)) IsUsable-opened
  | inr d ↦ elim (Bool-cases (j == closed_key)) [
    | inl e ↦
        subst (IsUsable sample_libs web (owned_sockets web (opened ∷ [])))
          (sym ((string_eq.same_iff j _).0 e)) IsUsable-closed
    | inr c ↦ elim (Bool-cases (j == earlier_key)) [
      | inl e ↦ absurd (
          ground (
            arith,
            subst (λ k. is_concerned k ≡ true) ((string_eq.same_iff j _).0 e) h,
            test_concerned,
          ))
      | inr b ↦ absurd (ground (arith, h, d, c, b))
    ]
  ]
]

-- The order of the goroutines is kept.
in_order : IsSchedule (λ tasks. tasks)
in_order tasks task = refl

update_filter-tracks_example :
    (st' : Tracking sample_libs process_libs) × (update_filter
        (λ tasks. tasks)
        (process_view process_libs tracking.sockets web)
        web
        (opened ∷ [])
        tracking
      ≡ some st')
    × ((j : String)
        → process_libs.texts.contains_one st'.sockets j ≡ (
            if is_process_key web j
            then is_reported web (opened ∷ []) j
            else process_libs.texts.contains_one tracking.sockets j))
update_filter-tracks_example =
    update_filter-tracks (λ tasks. tasks) web (opened ∷ []) tracking in_order usable

keyed : IsKeyed process_libs tracking.sockets
unfolding split_n
keyed j h = elim (Bool-cases (j == closed_key)) [
  | inl e ↦ subst (λ k. length (split_n k 3) ≡ 4) (sym ((string_eq.same_iff j _).0 e)) refl
  | inr c ↦ elim (Bool-cases (j == earlier_key)) [
    | inl e ↦ subst (λ k. length (split_n k 3) ≡ 4) (sym ((string_eq.same_iff j _).0 e)) refl
    | inr b ↦ absurd (ground (arith, h, c, b))
  ]
]

update_filter-IsKeyed_example :
    (st' : Tracking sample_libs process_libs) × (update_filter
        (λ tasks. tasks)
        tracking.sockets
        web
        (opened ∷ [])
        tracking
      ≡ some st')
    × IsKeyed process_libs st'.sockets
update_filter-IsKeyed_example =
    update_filter-IsKeyed (λ tasks. tasks) tracking.sockets web (opened ∷ []) tracking in_order
      keyed keyed

to_socket-new_socket_key_example :
    to_socket web (new_socket_key web opened) ≡ some (record opened { program = "web"; pid = 7 })
unfolding no_slash
to_socket-new_socket_key_example = to_socket-new_socket_key web opened refl refl refl
