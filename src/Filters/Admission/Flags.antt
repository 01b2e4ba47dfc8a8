-- ===== src/Filters/Admission/Flags.antt =====
-- The filter on TCP flags against the flags of a packet.
use pcap_sidecar.Common.{
  ℕ, String, ◌<◌, ◌≡◌, ◌↔◌, refl, true, false, Bool, some, arith, List, bit_and, ltb→lt, lt→ltb, ap,
  sym, ◌∙◌, min,
}
use pcap_sidecar.Common.Bits.{bit, bit_le_one, bit_pos, has_bit, bit-bit_and}
use pcap_sidecar.Filters.Libs.{FilterLibs}
use pcap_sidecar.Filters.TcpFlags.{TcpLayer, parse_tcp_flags}
use pcap_sidecar.Filters.TcpFlags.Laws.{flag_at, to_bit, bit-parse_tcp_flags, fold-materialize}
use pcap_sidecar.Filters.Config.{PcapFilters, add_tcp_flags, combine_and_add_tcp_flags}
use pcap_sidecar.Filters.Queries.{allows_any_tcp_flags}
use pcap_sidecar.Filters.Worker.{Packet, should_translate}
use pcap_sidecar.Filters.Admission.{
  transport_of, over_tcp, network_of, flags_admitted, transport_admitted, admitted,
}
use pcap_sidecar.Filters.Admission.Refines.{should_translate-admitted}

-- A flag that the byte of the packet and the filter have in common.
abbrev pub Shared : TcpLayer → ℕ → Type 0
Shared t flags = (k : ℕ) × (flag_at t k ≡ true) × (bit k flags ≡ 1)

flag_of_bit : (b : Bool) → 0 < to_bit b → b ≡ true
flag_of_bit true h = refl
flag_of_bit false h = absurd (omega arith)

Shared-of_mask : (t : TcpLayer) (flags : ℕ) → 0 < bit_and (parse_tcp_flags t) flags → Shared t flags
Shared-of_mask t flags h =
    let (k, e) = has_bit (bit_and (parse_tcp_flags t) flags) h in
    let both : min (bit k (parse_tcp_flags t)) (bit k flags) ≡ 1 = sym (bit-bit_and k _ _) ∙ e in
    (
      k,
      flag_of_bit (flag_at t k) (omega (arith, bit-parse_tcp_flags t k)),
      omega (arith, bit_le_one k flags),
    )

mask_of_Shared : (t : TcpLayer) (flags : ℕ) → Shared t flags → 0 < bit_and (parse_tcp_flags t) flags
mask_of_Shared t flags (k, set, e) =
    bit_pos k _ (omega (arith, bit-bit_and k (parse_tcp_flags t) flags, mine))
  where
    mine : bit k (parse_tcp_flags t) ≡ 1
    mine = bit-parse_tcp_flags t k ∙ ap to_bit set

transport_of_tcp :
    (p : Packet) (t : TcpLayer)
    → p.tcp ≡ some t
    → transport_of p ≡ some (over_tcp (parse_tcp_flags t) t.src_port t.dst_port)
unfolding transport_of
transport_of_tcp p t has = ground arith

module _ {L : FilterLibs} (f : PcapFilters L) where
  -- `AllowsAnyTCPflags` on a parsed packet: some flag is set in it and in the filter.
  pub allows_any_tcp_flags_iff :
      (t : TcpLayer) → (allows_any_tcp_flags f (parse_tcp_flags t) ≡ true) ↔ Shared t f.l4.flags
  unfolding allows_any_tcp_flags
  allows_any_tcp_flags_iff t = (
    λ h. Shared-of_mask t f.l4.flags (ltb→lt _ _ h),
    λ s. lt→ltb _ _ (mask_of_Shared t f.l4.flags s),
  )

  tcp_masked :
      (p : Packet) (t : TcpLayer)
      → p.tcp ≡ some t
      → 0 < f.l4.flags
      → admitted f (network_of p) (transport_of p) ≡ true
      → 0 < bit_and (parse_tcp_flags t) f.l4.flags
  unfolding admitted transport_admitted flags_admitted
  tcp_masked p t has pos h = ground (arith, transport_of_tcp p t has)

  -- Once the filter has flags, no TCP packet is translated that shares none with it.
  pub should_translate-flags :
      (p : Packet) (t : TcpLayer)
      → p.tcp ≡ some t
      → 0 < f.l4.flags
      → should_translate f p ≡ true
      → Shared t f.l4.flags
  should_translate-flags p t has pos h =
      Shared-of_mask t f.l4.flags (tcp_masked p t has pos (sym (should_translate-admitted f p) ∙ h))

  -- Adding flags one by one and adding their union are one.
  pub add_tcp_flags-combine :
      (flags : List String) → add_tcp_flags f flags ≡ combine_and_add_tcp_flags f flags
  unfolding add_tcp_flags combine_and_add_tcp_flags
  add_tcp_flags-combine flags =
      ap (λ g. record f { l4 = record (f.l4) { flags = g } }) (fold-materialize flags f.l4.flags)
