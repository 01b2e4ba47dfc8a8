-- ===== src/Samples/Sets.antt =====
-- `mapset.Set` as a list.
use pcap_sidecar.Common.{
  ◌≡◌, refl, ◌↔◌, Bool, true, false, not, ◌&&◌, List, [], ◌∷◌, arith, any, all, contains, remove,
  Comparable, ◌==◌, same_self,
}
use pcap_sidecar.Common.Sets.{SetApi}

module _ {A : Type 0} ⦃c : Comparable A⦄ where
  pub contains-remove :
      (s : List A) (y x : A) → contains x (remove y s) ≡ (not (x == y) && contains x s)
  contains-remove [] y x = ground arith
  contains-remove (z ∷ s) y x =
      ground (arith, contains-remove s y x, c.same_iff y z, c.same_iff x z, c.same_iff x y)

  abbrev is_nil : List A → Bool
  is_nil [] = true
  is_nil (x ∷ xs) = false

  pub nil_iff : (s : List A) → (is_nil s ≡ true) ↔ ((x : A) → contains x s ≡ false)
  nil_iff [] = (λ h x. refl, λ h. refl)
  nil_iff (y ∷ s) = (λ h x. cc, λ h. ground (arith, h y, same_self y))

  abbrev pub list_set : SetApi A
  list_set = record {
    Carrier = List A;
    empty = [];
    add = λ s x. x ∷ s;
    del = λ s x. remove x s;
    contains_one = λ s x. contains x s;
    contains = λ s xs. all (λ x. contains x s) xs;
    contains_any = λ s xs. any (λ x. contains x s) xs;
    is_empty = is_nil;
    to_slice = λ s. s;
    any-to_slice = λ s x. refl;
    contains_one-empty = λ x. refl;
    contains_one-add = λ s y x. refl;
    contains_one-del = contains-remove;
    contains_any_lem = λ s xs. refl;
    contains_lem = λ s xs. refl;
    is_empty_iff = nil_iff;
  }
