-- ===== src/Filters/Admission/Ports.antt =====
-- What denying a port does to the packets that are translated.
use pcap_sidecar.Common.{
  ℕ, ◌≡◌, refl, not, ◌&&◌, ◌||◌, Option, none, some, arith, nat_beq, nat_eq, ap, sym, ◌∙◌,
}
use pcap_sidecar.Filters.Libs.{FilterLibs}
use pcap_sidecar.Filters.Config.{PcapFilters, deny_port}
use pcap_sidecar.Filters.Worker.{Packet, should_translate}
use pcap_sidecar.Filters.Admission.{
  Network, net4, net6, Transport, over_tcp, over_udp, network_of, transport_of, touches,
  network_admitted, ports_admitted, flags_admitted, transport_admitted, socket_admitted, admitted,
}
use pcap_sidecar.Filters.Admission.Refines.{should_translate-admitted}

module _ {L : FilterLibs} (f : PcapFilters L) (port : ℕ) where
  ports_admitted-deny_port :
      (src dst : ℕ)
      → ports_admitted (deny_port f port) src dst
        ≡ (not (nat_beq src port || nat_beq dst port) && ports_admitted f src dst)
  unfolding ports_admitted deny_port
  ports_admitted-deny_port src dst = ground (
    arith,
    L.sets.contains_one-add f.l4.no_ports port src,
    L.sets.contains_one-add f.l4.no_ports port dst,
  )

  network_admitted-deny_port :
      (net : Option Network) → network_admitted (deny_port f port) net ≡ network_admitted f net
  unfolding network_admitted deny_port
  network_admitted-deny_port none = refl
  network_admitted-deny_port (some (net4 a b)) = refl
  network_admitted-deny_port (some (net6 a b)) = refl

  socket_admitted-deny_port :
      (net : Option Network) (trans : Option Transport)
      → socket_admitted (deny_port f port) net trans ≡ socket_admitted f net trans
  unfolding socket_admitted deny_port
  socket_admitted-deny_port net trans = refl

  flags_admitted-deny_port : (g : ℕ) → flags_admitted (deny_port f port) g ≡ flags_admitted f g
  unfolding flags_admitted deny_port
  flags_admitted-deny_port g = refl

  protos-deny_port : (deny_port f port).l4.protos ≡ f.l4.protos
  unfolding deny_port
  protos-deny_port = refl

  admitted-deny_port :
      (net : Option Network) (trans : Option Transport)
      → admitted (deny_port f port) net trans ≡ (not (touches port trans) && admitted f net trans)
  unfolding admitted transport_admitted touches
  admitted-deny_port net none =
      ground (arith, network_admitted-deny_port net, socket_admitted-deny_port net none)
  admitted-deny_port net (some (over_tcp g p q)) = ground (
    arith,
    network_admitted-deny_port net,
    socket_admitted-deny_port net (some (over_tcp g p q)),
    flags_admitted-deny_port g,
    protos-deny_port,
    ports_admitted-deny_port p q,
  )
  admitted-deny_port net (some (over_udp p q)) = ground (
    arith,
    network_admitted-deny_port net,
    socket_admitted-deny_port net (some (over_udp p q)),
    protos-deny_port,
    ports_admitted-deny_port p q,
  )

  -- Denying a port rejects exactly the packets that have it at either end; every other packet fares
  -- as before, whatever else the filters hold.
  pub should_translate-deny_port :
      (packet : Packet)
      → should_translate (deny_port f port) packet
        ≡ (not (touches port (transport_of packet)) && should_translate f packet)
  should_translate-deny_port packet =
      should_translate-admitted (deny_port f port) packet
      ∙ admitted-deny_port (network_of packet) (transport_of packet)
      ∙ ap (λ b. not (touches port (transport_of packet)) && b)
          (sym (should_translate-admitted f packet))
