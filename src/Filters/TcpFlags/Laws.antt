-- ===== src/Filters/TcpFlags/Laws.antt =====
-- What `parseTCPflags`, `isConnectionTermination` and `mergeTCPFlags` compute.
use pcap_sidecar.Common.{
  ℕ, zero, suc, ◌*◌, String, max, ◌≡◌, Bool, true, false, ◌||◌, List, [], ◌∷◌, arith, fold, bit_or,
  if◌then◌else◌, sym, ap, ◌∙◌,
}
use pcap_sidecar.Common.Bits.{
  bit, bit-zero, bit_and_five, bit-bit_or, bit_or-zero, bit_or_assoc, zero-bit_or,
}
use pcap_sidecar.Filters.TcpFlags.{
  TcpLayer, materialize, merge_tcp_flags, set_if, parse_tcp_flags, is_connection_termination,
}

abbrev nth : List Bool → ℕ → Bool
nth [] k = false
nth (b ∷ bs) zero = b
nth (b ∷ bs) (suc k) = nth bs k

-- The flags in the order of the byte in the TCP header, lowest bit first.
abbrev pub flag_at : TcpLayer → ℕ → Bool
flag_at t k = nth (t.fin ∷ t.syn ∷ t.rst ∷ t.psh ∷ t.ack ∷ t.urg ∷ t.ece ∷ t.cwr ∷ []) k

abbrev pub to_bit : Bool → ℕ
to_bit b = if b then 1 else 0

bit-set_if :
    (k : ℕ) (b : Bool) (flag flags : ℕ)
    → bit k (set_if b flag flags) ≡ max (bit k flags) (to_bit b * bit k flag)
unfolding set_if
bit-set_if k true flag flags = omega (arith, bit-bit_or k flags flag)
bit-set_if k false flag flags = omega arith

-- The eight tests of `parse_tcp_flags`, each with the bit that it sets.
bit-parse_chain :
    (t : TcpLayer) (k : ℕ)
    → bit k (parse_tcp_flags t)
      ≡ max
          (max
            (max
              (max
                (max
                  (max
                    (max (max (bit k 0) (to_bit t.syn * bit k 2)) (to_bit t.ack * bit k 16))
                    (to_bit t.psh * bit k 8))
                  (to_bit t.fin * bit k 1))
                (to_bit t.rst * bit k 4))
              (to_bit t.urg * bit k 32))
            (to_bit t.ece * bit k 64))
          (to_bit t.cwr * bit k 128)
unfolding parse_tcp_flags
bit-parse_chain t k = simp bit-set_if

-- Bit `k` of the parsed byte is the flag that stands there in the TCP header.
pub bit-parse_tcp_flags : (t : TcpLayer) (k : ℕ) → bit k (parse_tcp_flags t) ≡ to_bit (flag_at t k)
unfolding bit
bit-parse_tcp_flags t zero = omega (arith, bit-parse_chain t 0)
bit-parse_tcp_flags t (suc zero) = omega (arith, bit-parse_chain t 1)
bit-parse_tcp_flags t (suc (suc zero)) = omega (arith, bit-parse_chain t 2)
bit-parse_tcp_flags t (suc (suc (suc zero))) = omega (arith, bit-parse_chain t 3)
bit-parse_tcp_flags t (suc (suc (suc (suc zero)))) = omega (arith, bit-parse_chain t 4)
bit-parse_tcp_flags t (suc (suc (suc (suc (suc zero))))) = omega (arith, bit-parse_chain t 5)
bit-parse_tcp_flags t (suc (suc (suc (suc (suc (suc zero)))))) = omega (arith, bit-parse_chain t 6)
bit-parse_tcp_flags t (suc (suc (suc (suc (suc (suc (suc zero))))))) =
    omega (arith, bit-parse_chain t 7)
bit-parse_tcp_flags t (suc (suc (suc (suc (suc (suc (suc (suc k)))))))) =
    rw bit-parse_chain (simp bit-zero (omega arith))

-- `FIN` or `RST` set is exactly a connection termination.
pub is_connection_termination-parse_tcp_flags :
    (t : TcpLayer) → is_connection_termination (parse_tcp_flags t) ≡ (t.fin || t.rst)
unfolding is_connection_termination
is_connection_termination-parse_tcp_flags t =
    ground
      (arith, bit_and_five (parse_tcp_flags t), bit-parse_tcp_flags t 0, bit-parse_tcp_flags t 2)

-- Adding flags one by one, as `AddTCPFlags` does, is adding their union, as `CombineAndAddTCPFlags`.
pub fold-materialize :
    (flags : List String) (start : ℕ)
    → fold (λ f flag. bit_or f (materialize flag)) start flags
      ≡ bit_or start (merge_tcp_flags flags)
unfolding merge_tcp_flags
fold-materialize [] start = sym (bit_or-zero start)
fold-materialize (x ∷ xs) start =
    fold-materialize xs (bit_or start (materialize x))
    ∙ bit_or_assoc start (materialize x) (merge_tcp_flags xs)
    ∙ ap (bit_or start) (
        ap (λ z. bit_or z (merge_tcp_flags xs)) (sym (zero-bit_or (materialize x)))
        ∙ sym (fold-materialize xs (bit_or 0 (materialize x))))
