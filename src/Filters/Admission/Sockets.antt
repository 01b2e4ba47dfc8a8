-- ===== src/Filters/Admission/Sockets.antt =====
-- What denying and allowing a socket does to the packets that are translated.
use pcap_sidecar.Common.{
  ℕ, String, ◌≡◌, refl, Bool, true, false, not, ◌&&◌, ◌||◌, if◌then◌else◌, Option, none, some,
  arith, nat_beq, nat_eq, Option-cases, inl, inr,
}
use pcap_sidecar.Filters.Libs.{FilterLibs}
use pcap_sidecar.Filters.Config.{
  PcapFilters, hash_socket_from2tuples, update_no_sockets, allow_socket, deny_socket,
}
use pcap_sidecar.Filters.Worker.{Packet, should_translate}
use pcap_sidecar.Filters.Admission.{
  Network, net4, net6, Transport, over_tcp, over_udp, network_of, transport_of, socket_key,
  network_admitted, ports_admitted, flags_admitted, transport_admitted, socket_admitted, admitted,
}
use pcap_sidecar.Filters.Admission.Refines.{should_translate-admitted}

-- Whether a socket has the given key.
abbrev pub key_is : FilterLibs → ℕ → Option Network → Option Transport → Bool
key_is L key net trans = elim (socket_key L net trans) [
  | some hash ↦ nat_beq hash key
  | none ↦ false
]

module _ {L : FilterLibs} (f : PcapFilters L) (s : L.sets.Carrier) where
  with_sockets : PcapFilters L
  with_sockets = record f { no_sockets = s }

  network_admitted-with_sockets :
      (net : Option Network) → network_admitted with_sockets net ≡ network_admitted f net
  unfolding network_admitted with_sockets
  network_admitted-with_sockets none = refl
  network_admitted-with_sockets (some (net4 a b)) = refl
  network_admitted-with_sockets (some (net6 a b)) = refl

  transport_admitted-with_sockets :
      (trans : Option Transport)
      → transport_admitted with_sockets trans ≡ transport_admitted f trans
  unfolding transport_admitted flags_admitted ports_admitted with_sockets
  transport_admitted-with_sockets none = refl
  transport_admitted-with_sockets (some (over_tcp g p q)) = refl
  transport_admitted-with_sockets (some (over_udp p q)) = refl

  -- Only the socket's key decides how a new set of denied sockets treats a packet.
  should_translate-with_sockets :
      (packet : Packet)
      → should_translate with_sockets packet ≡ (
          network_admitted f (network_of packet)
          && (transport_admitted f (transport_of packet)
              && socket_admitted with_sockets (network_of packet) (transport_of packet)))
  unfolding admitted
  should_translate-with_sockets packet = ground (
    arith,
    should_translate-admitted with_sockets packet,
    network_admitted-with_sockets (network_of packet),
    transport_admitted-with_sockets (transport_of packet),
  )

module _ {L : FilterLibs} (f : PcapFilters L) (key : ℕ) where
  socket_admitted-add :
      (net : Option Network) (trans : Option Transport)
      → socket_admitted (with_sockets f (L.sets.add f.no_sockets key)) net trans
        ≡ (not (key_is L key net trans) && socket_admitted f net trans)
  unfolding socket_admitted with_sockets
  socket_admitted-add net trans = elim (Option-cases (socket_key L net trans)) [
    | inl e ↦ rw (e, socket_admitted, key_is)
    | inr (h, e) ↦
        rw (e, socket_admitted, key_is) (ground (arith, L.sets.contains_one-add f.no_sockets key h))
  ]

  socket_admitted-del :
      (net : Option Network) (trans : Option Transport)
      → socket_admitted (with_sockets f (L.sets.del f.no_sockets key)) net trans
        ≡ (key_is L key net trans || socket_admitted f net trans)
  unfolding socket_admitted with_sockets
  socket_admitted-del net trans = elim (Option-cases (socket_key L net trans)) [
    | inl e ↦ rw (e, socket_admitted, key_is)
    | inr (h, e) ↦
        rw (e, socket_admitted, key_is) (ground (arith, L.sets.contains_one-del f.no_sockets key h))
  ]

module _ {L : FilterLibs} (f : PcapFilters L) (local remote : String) {key : ℕ}
    (parsed : hash_socket_from2tuples L local remote ≡ some key) where
  deny_socket-eq : deny_socket f local remote ≡ (with_sockets f (L.sets.add f.no_sockets key), true)
  unfolding deny_socket with_sockets
  deny_socket-eq = rw (parsed, deny_socket, update_no_sockets)

  allow_socket-eq :
      allow_socket f local remote ≡ (with_sockets f (L.sets.del f.no_sockets key), true)
  unfolding allow_socket with_sockets
  allow_socket-eq = rw (parsed, allow_socket, update_no_sockets)

  -- Denying a socket whose two texts can be parsed rejects exactly the packets with its key, and every
  -- other packet fares as before. Allowing it lets the packets with its key pass this test: such a
  -- packet is translated exactly if the tests of its network and of its transport allow it, and every
  -- other packet fares as before.
  pub should_translate-update_no_sockets :
      (packet : Packet)
      → (should_translate (deny_socket f local remote).0 packet ≡ (
          not (key_is L key (network_of packet) (transport_of packet))
          && should_translate f packet))
        × (should_translate (allow_socket f local remote).0 packet ≡ (
            if key_is L key (network_of packet) (transport_of packet)
            then network_admitted f (network_of packet)
              && transport_admitted f (transport_of packet)
            else should_translate f packet))
  unfolding admitted
  should_translate-update_no_sockets packet = (
    rw deny_socket-eq (
        ground (
          arith,
          should_translate-with_sockets f (L.sets.add f.no_sockets key) packet,
          should_translate-admitted f packet,
          socket_admitted-add f key (network_of packet) (transport_of packet),
        )),
    rw allow_socket-eq (
        ground (
          arith,
          should_translate-with_sockets f (L.sets.del f.no_sockets key) packet,
          should_translate-admitted f packet,
          socket_admitted-del f key (network_of packet) (transport_of packet),
        )),
  )
