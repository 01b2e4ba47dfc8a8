-- ===== src/Transformer/Order/Lists.antt =====
-- Prefixes of lists, and properties of all writers.
use mathlib.Core.List.{append_assoc}
use pcap_sidecar.Common.{◌≡◌, refl, ap, ◌∙◌, List, [], ◌∷◌, ◌++◌, map}

abbrev pub IsPrefix : {A : Type 0} → List A → List A → Type 0
IsPrefix {A} xs ys = (rest : List A) × (ys ≡ xs ++ rest)

pub IsPrefix-append : {A : Type 0} (xs ys zs : List A) → IsPrefix xs ys → IsPrefix xs (ys ++ zs)
IsPrefix-append xs ys zs (rest, e) = (rest ++ zs, ap (λ l. l ++ zs) e ∙ append_assoc xs rest zs)

pub map-append :
    {A B : Type 0} (f : A → B) (xs ys : List A) → map f (xs ++ ys) ≡ map f xs ++ map f ys
map-append f [] ys = refl
map-append f (x ∷ xs) ys = ap (λ l. f x ∷ l) (map-append f xs ys)

abbrev pub All : {A : Type 0} → (A → Type 0) → List A → Type 0
All P [] = Unit
All P (x ∷ xs) = P x × All P xs

module _ {A : Type 0} where
  pub All-map :
      (P Q : A → Type 0) (f : A → A)
      → ((x : A) → P x → Q (f x))
      → (xs : List A) → All P xs
      → All Q (map f xs)
  All-map P Q f g [] a = tt
  All-map P Q f g (x ∷ xs) (p, a) = (g x p, All-map P Q f g xs a)

  pub All-at :
      (P : A → Type 0) (before : List A) (x : A) (after : List A)
      → All P (before ++ x ∷ after)
      → P x
  All-at P [] x after a = a.0
  All-at P (y ∷ before) x after a = All-at P before x after a.1

  pub All-set :
      (P : A → Type 0) (before : List A) (x y : A) (after : List A)
      → All P (before ++ x ∷ after)
      → P y
      → All P (before ++ y ∷ after)
  All-set P [] x y after a p = (p, a.1)
  All-set P (z ∷ before) x y after a p = (a.0, All-set P before x y after a.1 p)
