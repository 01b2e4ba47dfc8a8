-- ===== src/Filters/Admission/Fresh.antt =====
-- Filters to which nothing was added.
use pcap_sidecar.Common.{
  ℕ, ◌≡◌, refl, true, Option, none, some, arith, nat_eq, Option-cases, inl, inr,
}
use pcap_sidecar.Common.Sets.{SetApi}
use pcap_sidecar.Filters.Libs.{FilterLibs}
use pcap_sidecar.Filters.Config.{new_pcap_filters}
use pcap_sidecar.Filters.Worker.{Packet, should_translate}
use pcap_sidecar.Filters.Admission.{
  Network, net4, net6, Transport, over_tcp, over_udp, network_of, transport_of, socket_key,
  network_admitted, ports_admitted, flags_admitted, transport_admitted, socket_admitted, admitted,
}
use pcap_sidecar.Filters.Admission.Refines.{should_translate-admitted}

is_empty-empty : (S : SetApi ℕ) → S.is_empty S.empty ≡ true
is_empty-empty S = (S.is_empty_iff S.empty).1 S.contains_one-empty

module _ (L : FilterLibs) where
  network_admitted-new : (net : Option Network) → network_admitted (new_pcap_filters L) net ≡ true
  unfolding network_admitted new_pcap_filters
  network_admitted-new none = refl
  network_admitted-new (some (net4 a b)) =
      ground (arith, is_empty-empty L.sets, L.trees.len_lem L.trees.new, L.trees.items-new)
  network_admitted-new (some (net6 a b)) =
      ground (arith, is_empty-empty L.sets, L.trees.len_lem L.trees.new, L.trees.items-new)

  ports_admitted-new : (p q : ℕ) → ports_admitted (new_pcap_filters L) p q ≡ true
  unfolding ports_admitted new_pcap_filters
  ports_admitted-new p q =
      ground
        (arith, is_empty-empty L.sets, L.sets.contains_one-empty p, L.sets.contains_one-empty q)

  transport_admitted-new :
      (trans : Option Transport) → transport_admitted (new_pcap_filters L) trans ≡ true
  unfolding transport_admitted flags_admitted new_pcap_filters
  transport_admitted-new none = refl
  transport_admitted-new (some (over_tcp g p q)) =
      ground (arith, is_empty-empty L.sets, ports_admitted-new p q)
  transport_admitted-new (some (over_udp p q)) =
      ground (arith, is_empty-empty L.sets, ports_admitted-new p q)

  socket_admitted-new :
      (net : Option Network) (trans : Option Transport)
      → socket_admitted (new_pcap_filters L) net trans ≡ true
  unfolding socket_admitted new_pcap_filters
  socket_admitted-new net trans = elim (Option-cases (socket_key L net trans)) [
    | inl e ↦ rw (e, socket_admitted)
    | inr (h, e) ↦ rw (e, socket_admitted) (rw (L.sets.contains_one-empty h))
  ]

  -- Filters to which nothing was added let every packet through.
  pub should_translate-new_pcap_filters :
      (packet : Packet) → should_translate (new_pcap_filters L) packet ≡ true
  unfolding admitted
  should_translate-new_pcap_filters packet = ground (
    arith,
    should_translate-admitted (new_pcap_filters L) packet,
    network_admitted-new (network_of packet),
    transport_admitted-new (transport_of packet),
    socket_admitted-new (network_of packet) (transport_of packet),
  )
