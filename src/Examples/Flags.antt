-- ===== src/Examples/Flags.antt =====
-- TCP flags at concrete segments.
use pcap_sidecar.Common.{◌≡◌, refl, true, false, ◌||◌, [], ◌∷◌}
use pcap_sidecar.Common.Bits.{bit}
use pcap_sidecar.Filters.TcpFlags.{
  TcpLayer, parse_tcp_flags, is_connection_termination, materialize, merge_tcp_flags, set_if,
}
use pcap_sidecar.Filters.TcpFlags.Laws.{
  flag_at, to_bit, bit-parse_tcp_flags, is_connection_termination-parse_tcp_flags,
}

abbrev fin_ack : TcpLayer
fin_ack = record {
  src_port = 80;
  dst_port = 4000;
  fin = true;
  syn = false;
  rst = false;
  psh = false;
  ack = true;
  urg = false;
  ece = false;
  cwr = false;
}

test_bit-parse_tcp_flags : bit 4 (parse_tcp_flags fin_ack) ≡ to_bit (flag_at fin_ack 4)
test_bit-parse_tcp_flags = bit-parse_tcp_flags fin_ack 4

test_is_connection_termination-parse_tcp_flags :
    is_connection_termination (parse_tcp_flags fin_ack) ≡ (fin_ack.fin || fin_ack.rst)
test_is_connection_termination-parse_tcp_flags = is_connection_termination-parse_tcp_flags fin_ack

fin_ack_byte : parse_tcp_flags fin_ack ≡ 0x11
unfolding parse_tcp_flags set_if
fin_ack_byte = refl

unknown_flag : materialize "syn" ≡ 0
unfolding materialize
unknown_flag = refl

merged : merge_tcp_flags ("SYN" ∷ "ACK" ∷ "???" ∷ []) ≡ 0x12
unfolding merge_tcp_flags materialize
merged = refl
