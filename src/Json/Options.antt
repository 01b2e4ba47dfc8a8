-- ===== src/Json/Options.antt =====
-- `addTCPWindowScale`, and the part of `addTCPOptions` that leads to it.
use native.Mathlib.Nat.{pow-le-pow_right, pow-suc, mul-le-mul_left}
use pcap_sidecar.Common.{
  ℕ, suc, ◌+◌, ◌-◌, ◌*◌, ◌%◌, ◌^◌, ◌≤◌, ◌<◌, ◌≡◌, refl, Option, none, some, List, [], ◌∷◌, fold,
  arith, ltb, nat_eq, ◌==◌, if◌then◌else◌,
}

-- What is written for the option: the text that is no number, or the multiplier and the window.
pub data WindowScale : Type 0 where
  no_number : WindowScale
  scaled : ℕ → ℕ → WindowScale

-- `strings.TrimRight` of zeros, on the digits behind `0x`.
unfoldable pub trim_zeros : List ℕ → List ℕ
trim_zeros [] = []
trim_zeros (d ∷ digits) = elim (trim_zeros digits) [
  | [] ↦ if d == 0 then [] else d ∷ []
  | e ∷ rest ↦ d ∷ e ∷ rest
]

-- `strconv.ParseUint(s, 0, 16)` on the digits behind `0x`; `none` is an error.
unfoldable pub parse_hex : List ℕ → Option ℕ
parse_hex [] = none
parse_hex (d ∷ digits) =
    let n = fold (λ m e. 16 * m + e) d digits in if ltb 65535 n then none else some n

-- `2 << s` on a uint64.
unfoldable pub shifted_two : ℕ → ℕ
shifted_two s = if ltb s 64 then (2 * 2 ^ s) % 2 ^ 64 else 0

-- `addTCPWindowScale`
unfoldable pub add_tcp_window_scale : ℕ → List ℕ → WindowScale
unfolding parse_hex shifted_two
add_tcp_window_scale window digits = elim (parse_hex digits) [
  | none ↦ no_number
  | some p ↦
      let multiplier = shifted_two ((p + (2 ^ 64 - 1)) % 2 ^ 64) in
      scaled multiplier ((window * multiplier) % 2 ^ 64)
]

-- The option of a segment, for a value below 16: it is shown as 0 and the digit of the value.
unfoldable pub window_option : ℕ → ℕ → WindowScale
unfolding trim_zeros add_tcp_window_scale
window_option window value = add_tcp_window_scale window (trim_zeros (0 ∷ value ∷ []))

trim_zeros-digit : (n : ℕ) → trim_zeros (0 ∷ suc n ∷ []) ≡ 0 ∷ suc n ∷ []
unfolding trim_zeros
trim_zeros-digit n = ground arith

parse_hex-digit : (n : ℕ) → suc n < 16 → parse_hex (0 ∷ suc n ∷ []) ≡ some (suc n)
unfolding parse_hex
parse_hex-digit n h = ground (arith, h)

two_pow_small : (n : ℕ) → suc n < 15 → 2 ^ suc n ≤ 2 ^ 14
two_pow_small n h =
    let b : suc n ≤ 14 = omega (arith, h) in pow-le-pow_right {n = 2} (omega arith) b

shifted_two-shift : (n : ℕ) → suc n < 15 → shifted_two ((suc n + (2 ^ 64 - 1)) % 2 ^ 64) ≡ 2 ^ suc n
unfolding shifted_two
shifted_two-shift n h =
    let s : (suc n + (2 ^ 64 - 1)) % 2 ^ 64 ≡ n = omega (arith, h) in
    let b = two_pow_small n h in rw s (ground (arith, h, b, pow-suc 2 n))

window_option-zero : (window : ℕ) → window_option window 0 ≡ no_number
unfolding window_option add_tcp_window_scale trim_zeros parse_hex
window_option-zero window = refl

window_fits :
    (window n : ℕ)
    → window < 65536
    → suc n < 15
    → (window * 2 ^ suc n) % 2 ^ 64 ≡ window * 2 ^ suc n
window_fits window n w h = let b = mul-le-mul_left window (two_pow_small n h) in omega (arith, b, w)

-- The shift of a window is at most 14. For each shift that is not 0, the option is written with the
-- power of two that it stands for, and with the window times this power; for the shift 0, it is
-- written as a text that is no number.
pub window_option_lem :
    (window n : ℕ)
    → window < 65536
    → suc n < 15
    → (window_option window (suc n) ≡ scaled (2 ^ suc n) (window * 2 ^ suc n))
      × (window_option window 0 ≡ no_number)
unfolding window_option add_tcp_window_scale
window_option_lem window n w h = (
  rw
      (
        window_option,
        trim_zeros-digit n,
        add_tcp_window_scale,
        parse_hex-digit n (omega (arith, h)),
        shifted_two-shift n h,
        window_fits window n w h,
      )
      refl,
  window_option-zero window,
)
