-- ===== src/Common/Maps.antt =====
-- The interface of `haxmap.Map` (github.com/alphadose/haxmap), which the sources call and do not
-- contain: the operations that the program uses, and what their documentation says of lookups.
use pcap_sidecar.Common.Tests.{Comparable, ◌==◌, if◌then◌else◌}
use mathlib.Core.Path.{◌≡◌}
use mathlib.Core.Option.{Option, none, some}
use mathlib.Core.List.{List, [], ◌∷◌}

-- The first value of a key in a list of pairs.
abbrev pub lookup {ℓ} : {K : Type 0} ⦃k : Comparable K⦄ {V : Type ℓ} → List (K × V) → K → Option V
lookup [] j = none
lookup ((i, v) ∷ m) j = if i == j then some v else lookup m j

pub record MapApi (K V : Type 0) ⦃k : Comparable K⦄ : Type 1 where
  pub Carrier : Type 0
  pub empty : Carrier
  pub get : Carrier → K → Option V
  pub set : Carrier → K → V → Carrier
  pub del : Carrier → K → Carrier
  -- What `ForEach` visits.
  pub entries : Carrier → List (K × V)
  pub get-empty : (j : K) → get empty j ≡ none
  pub get-set :
      (m : Carrier) (i : K) (v : V) (j : K)
      → get (set m i v) j ≡ (if i == j then some v else get m j)
  pub get-del : (m : Carrier) (i j : K) → get (del m i) j ≡ (if i == j then none else get m j)
  pub lookup-entries : (m : Carrier) (j : K) → lookup (entries m) j ≡ get m j
