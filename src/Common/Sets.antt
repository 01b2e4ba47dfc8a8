-- ===== src/Common/Sets.antt =====
-- The interface of `mapset.Set` (github.com/deckarep/golang-set), which the sources call and do not
-- contain: the operations that the program uses, and what their documentation says of membership.
use mathlib.Core.Path.{◌≡◌}
use mathlib.Core.Logic.{◌↔◌}
use mathlib.Core.Bool.{Bool, true, false, not, ◌||◌, ◌&&◌}
use mathlib.Core.List.{List}
use pcap_sidecar.Common.Tests.{Comparable, ◌==◌}
use pcap_sidecar.Common.Lists.{any, all}

pub record SetApi (A : Type 0) ⦃c : Comparable A⦄ : Type 1 where
  pub Carrier : Type 0
  pub empty : Carrier
  pub add : Carrier → A → Carrier
  pub del : Carrier → A → Carrier
  pub contains_one : Carrier → A → Bool
  pub contains : Carrier → List A → Bool
  pub contains_any : Carrier → List A → Bool
  pub is_empty : Carrier → Bool
  -- In an order that is not specified.
  pub to_slice : Carrier → List A
  pub contains_one-empty : (x : A) → contains_one empty x ≡ false
  pub contains_one-add :
      (s : Carrier) (y x : A) → contains_one (add s y) x ≡ (x == y || contains_one s x)
  pub contains_one-del :
      (s : Carrier) (y x : A) → contains_one (del s y) x ≡ (not (x == y) && contains_one s x)
  pub contains_any_lem : (s : Carrier) (xs : List A) → contains_any s xs ≡ any (contains_one s) xs
  pub contains_lem : (s : Carrier) (xs : List A) → contains s xs ≡ all (contains_one s) xs
  pub is_empty_iff : (s : Carrier) → (is_empty s ≡ true) ↔ ((x : A) → contains_one s x ≡ false)
  pub any-to_slice : (s : Carrier) (x : A) → any (λ y. x == y) (to_slice s) ≡ contains_one s x
