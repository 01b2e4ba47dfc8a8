-- ===== src/Providers/Texts.antt =====
-- Texts of the providers: `strings.Split` at commas, `strings.Join`, and the parsers of the standard
-- library that are parameters.
use Prim.Native.Char.{Char, code}
use Prim.Native.String.{[] as nil, ◌∷◌ as cons, ◌++◌ as concat}
use pcap_sidecar.Common.{
  ℕ, ◌≤◌, String, Bool, true, false, ◌||◌, Option, List, [], ◌∷◌, nat_eq, string_eq, ◌==◌,
  if◌then◌else◌, fold,
}
use pcap_sidecar.Common.Sets.{SetApi}
use pcap_sidecar.Filters.Addrs.{Addr, Prefix}

-- `strings.EqualFold`, `ToLower`, `ToUpper`, the functions of strconv and netip, and `mapset`.
pub record TextLibs : Type 1 where
  pub texts : SetApi String
  pub equal_fold : String → String → Bool
  pub to_lower : String → String
  pub to_upper : String → String
  -- `strconv.ParseUint(s, 10, 16)`: the value, and whether the error is nil.
  pub parse_uint16 : String → ℕ × Bool
  pub parse_uint16_bound : (s : String) → (parse_uint16 s).0 ≤ 0xFFFF
  -- `strconv.FormatUint(n, 16)`
  pub format_hex : ℕ → String
  pub parse_addr : String → Option Addr
  pub addr_string : Addr → String
  pub prefix_string : Prefix → String
  pub prefix_contains : Prefix → Addr → Bool
  -- `Resolver.LookupHost`; `none` is the error.
  pub lookup_host : String → Option (List String)

abbrev pub prepend : Char → List String → List String
prepend c [] = cons c nil ∷ []
prepend c (s ∷ rest) = cons c s ∷ rest

-- `strings.Split` at the character with the given code.
unfoldable pub split_on : ℕ → String → List String
split_on sep nil = nil ∷ []
split_on sep (cons c s) =
    let rest = split_on sep s in if code c == sep then nil ∷ rest else prepend c rest

-- `strings.Split(s, ",")`
abbrev pub split : String → List String
split s = split_on 44 s

-- `strings.Join`
unfoldable pub join_rest : String → List String → String
join_rest sep [] = ""
join_rest sep (s ∷ rest) = concat sep (concat s (join_rest sep rest))

unfoldable pub join : String → List String → String
unfolding join_rest
join sep [] = ""
join sep (s ∷ rest) = concat s (join_rest sep rest)

-- The test of the providers for a split that has nothing.
abbrev pub is_blank : List String → Bool
is_blank [] = true
is_blank (s ∷ []) = s == ""
is_blank (s ∷ t ∷ rest) = false

unfoldable pub paren : String → String
paren s = concat "(" (concat s ")")

module _ (T : TextLibs) where
  -- `mapset.NewThreadUnsafeSet(values...)`
  abbrev pub set_of : List String → T.texts.Carrier
  set_of values = fold T.texts.add T.texts.empty values

  abbrev pub is_any : String → Bool
  is_any s = T.equal_fold s "ALL" || T.equal_fold s "ANY"

  abbrev pub is_unset : String → Bool
  is_unset s = s == "" || is_any s
