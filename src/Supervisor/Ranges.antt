-- ===== src/Supervisor/Ranges.antt =====
-- The flag for the ephemeral ports, and the filters of a capture.
use Prim.Native.Char.{code}
use Prim.Native.String.{[] as nil, ◌∷◌ as cons}
use pcap_sidecar.Common.{
  ℕ, ◌+◌, ◌-◌, ◌*◌, ◌≡◌, ◌⊎◌, inl, inr, refl, String, Bool, true, false, ◌||◌, some, arith, ltb,
  nat_eq, string_eq, Option-cases, holds_if,
}
use pcap_sidecar.Engines.Gopacket.{valid_ephemerals}
use pcap_sidecar.Supervisor.Setup.{
  parse_digits, parse_uint16, split_two, set_port, default_range, parse_ephemeral_ports,
}

-- An error comes with 0 or with the greatest value.
abbrev IsParsed : ℕ × Bool → Type 0
IsParsed r = (r.1 ≡ false) ⊎ ((r.0 ≡ 0) ⊎ (r.0 ≡ 65535))

parse_digits-IsParsed : (s : String) (n : ℕ) → IsParsed (parse_digits s n)
unfolding parse_digits
parse_digits-IsParsed nil n = inl refl
parse_digits-IsParsed (cons c s) n =
    holds_if IsParsed (ltb (code c) 48 || ltb 57 (code c)) _ _ (λ h. inr (inl refl))
      (λ h.
        holds_if IsParsed (ltb 65535 (10 * n + (code c - 48))) _ _ (λ e. inr (inr refl))
          (λ e. parse_digits-IsParsed s (10 * n + (code c - 48))))

parse_uint16-IsParsed : (s : String) → IsParsed (parse_uint16 s)
unfolding parse_uint16
parse_uint16-IsParsed nil = inr (inl refl)
parse_uint16-IsParsed (cons c s) = parse_digits-IsParsed (cons c s) 0

set_port-default :
    (is_first : Bool) (r : ℕ × Bool)
    → IsParsed r
    → set_port is_first r default_range ≡ default_range
unfolding set_port
set_port-default is_first (v, e) (inl h) = rw h refl
set_port-default true (v, e) (inr (inl h)) = ground (arith, h)
set_port-default false (v, e) (inr (inl h)) = ground (arith, h)
set_port-default true (v, e) (inr (inr h)) = ground (arith, h)
set_port-default false (v, e) (inr (inr h)) = ground (arith, h)

parsed_range : (ephemerals : String) → parse_ephemeral_ports ephemerals ≡ default_range
unfolding parse_ephemeral_ports
parsed_range ephemerals = elim (Option-cases (split_two ephemerals)) [
  | inl n ↦ rw (parse_ephemeral_ports, n) refl
  | inr ((a, b), e) ↦
      rw
        (
          parse_ephemeral_ports,
          e,
          set_port-default true (parse_uint16 a) (parse_uint16-IsParsed a),
          set_port-default false (parse_uint16 b) (parse_uint16-IsParsed b),
        )
        refl
]

-- Whatever the flag for the ephemeral ports says, the range is the default one, and `NewPcap` keeps
-- it.
pub parse_ephemeral_ports-default :
    (ephemerals : String)
    → (parse_ephemeral_ports ephemerals ≡ default_range)
      × (valid_ephemerals (some (parse_ephemeral_ports ephemerals)) ≡ default_range)
unfolding valid_ephemerals
parse_ephemeral_ports-default ephemerals =
    (parsed_range ephemerals, rw (parsed_range ephemerals) refl)
