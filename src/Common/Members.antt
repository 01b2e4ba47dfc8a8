-- ===== src/Common/Members.antt =====
-- Members of a list by a Boolean test, and what a test over a list says of them.
use pcap_sidecar.Common.{
  ◌≡◌, refl, sym, ◌∙◌, ap, Bool, true, ◌||◌, List, [], ◌∷◌, any, fold, arith, Comparable, ◌==◌,
  same_self, Bool-cases, inl, inr,
}
use pcap_sidecar.Common.Sets.{SetApi}

-- A test of the state that each round of a loop passes or keeps.
pub any-fold {ℓ κ} :
    {A : Type ℓ} {B : Type κ} (f : B → A → B) (m : B → Bool) (p : A → Bool)
    → ((b : B) (x : A) → m (f b x) ≡ (p x || m b))
    → (b : B) (xs : List A) → m (fold f b xs) ≡ (any p xs || m b)
any-fold f m p each b [] = refl
any-fold f m p each b (x ∷ xs) = any-fold f m p each (f b x) xs ∙ ground (arith, each b x)

module _ {A : Type 0} ⦃c : Comparable A⦄ where
  abbrev pub is_member : A → List A → Bool
  is_member x xs = any (λ y. x == y) xs

  any-witness :
      (p : A → Bool) (xs : List A)
      → any p xs ≡ true
      → (x : A) × (is_member x xs ≡ true) × (p x ≡ true)
  any-witness p [] h = absurd (ground (arith, h))
  any-witness p (x ∷ xs) h = elim (Bool-cases (p x)) [
    | inl e ↦ (x, ground (arith, same_self x), e)
    | inr e ↦ let w = any-witness p xs (ground (arith, h, e)) in (w.0, ground (arith, w.1), w.2)
  ]

  any-member :
      (p : A → Bool) (x : A) (xs : List A) → is_member x xs ≡ true → p x ≡ true → any p xs ≡ true
  any-member p x [] h px = absurd (ground (arith, h))
  any-member p x (y ∷ ys) h px = elim (Bool-cases (x == y)) [
    | inl e ↦ ground (arith, ap p ((c.same_iff x y).0 e))
    | inr e ↦ ground (arith, any-member p x ys (ground (arith, h, e)) px)
  ]

  -- A test over a list asks for its members only.
  pub any-members :
      (p : A → Bool) (xs ys : List A)
      → ((x : A) → is_member x xs ≡ is_member x ys)
      → any p xs ≡ any p ys
  any-members p xs ys h = elim (Bool-cases (any p xs)) [
    | inl e ↦ let w = any-witness p xs e in e ∙ sym (any-member p w.0 ys (sym (h w.0) ∙ w.1) w.2)
    | inr e ↦ elim (Bool-cases (any p ys)) [
      | inl d ↦ let w = any-witness p ys d in any-member p w.0 xs (h w.0 ∙ w.1) w.2 ∙ sym d
      | inr d ↦ e ∙ sym d
    ]
  ]

  module _ (S : SetApi A) where
    contains_one-fold :
        (s : S.Carrier) (xs : List A) (x : A)
        → S.contains_one (fold S.add s xs) x ≡ (is_member x xs || S.contains_one s x)
    contains_one-fold s xs x =
        any-fold S.add (λ t. S.contains_one t x) (λ y. x == y) (λ t y. S.contains_one-add t y x) s
          xs

    -- The set of the values has them as members.
    pub contains_one-set_of :
        (xs : List A) (x : A) → S.contains_one (fold S.add S.empty xs) x ≡ is_member x xs
    contains_one-set_of xs x =
        contains_one-fold S.empty xs x ∙ ground (arith, S.contains_one-empty x)

    pub any-to_slice_set_of :
        (p : A → Bool) (xs : List A) → any p (S.to_slice (fold S.add S.empty xs)) ≡ any p xs
    any-to_slice_set_of p xs =
        any-members p _ xs
          (λ x. S.any-to_slice (fold S.add S.empty xs) x ∙ contains_one-set_of xs x)
