-- ===== src/Flows/Libs.antt =====
-- The maps of the flow mutex as parameters, and memory that pointers point into.
use pcap_sidecar.Common.{
  ℕ, ◌<◌, ◌≡◌, String, none, some, List, [], ◌∷◌, nat_eq, string_eq, ◌==◌, if◌then◌else◌,
}
use pcap_sidecar.Common.Maps.{MapApi, lookup}

-- The pairs stand in ascending order of their keys, and all keys are above `low`.
abbrev pub IsAscending {ℓ} : {V : Type ℓ} → ℕ → List (ℕ × V) → Type 0
IsAscending low [] = Unit
IsAscending low ((k, v) ∷ rest) = (low < k) × IsAscending k rest

-- All keys are ascending, without a bound for the first.
abbrev pub IsSorted {ℓ} : {V : Type ℓ} → List (ℕ × V) → Type 0
IsSorted [] = Unit
IsSorted ((k, v) ∷ rest) = IsAscending k rest

-- `skipmap.Uint32Map` (github.com/zhangyunhao116/skipmap): `items` is what `Range` visits.
pub record SkipMapApi (V : Type 0) : Type 1 where
  pub Carrier : Type 0
  pub empty : Carrier
  pub store : Carrier → ℕ → V → Carrier
  pub delete : Carrier → ℕ → Carrier
  pub items : Carrier → List (ℕ × V)
  pub items-IsSorted : (m : Carrier) → IsSorted (items m)
  pub lookup-items :
      (m : Carrier) (k : ℕ) (v : V) (j : ℕ)
      → lookup (items (store m k v)) j ≡ (if k == j then some v else lookup (items m) j)
  pub lookup-delete :
      (m : Carrier) (k j : ℕ)
      → lookup (items (delete m k)) j ≡ (if k == j then none else lookup (items m) j)

-- The maps: pointers are numbers.
pub record FlowLibs : Type 1 where
  -- Values of `httpRequest`.
  pub Request : Type 0
  pub requests : MapApi String Request
  pub refs : MapApi ℕ ℕ
  pub sequences : SkipMapApi ℕ
  pub streams : MapApi ℕ sequences.Carrier

-- Memory: what each pointer points to.
abbrev pub Heap {ℓ} : Type ℓ → Type ℓ
Heap A = ℕ → A

abbrev pub put {ℓ} : {A : Type ℓ} → Heap A → ℕ → A → Heap A
put h p a q = if p == q then a else h q
