-- ===== src/Flows/Greatest.antt =====
-- Greatest keys of the items of a sorted map, for `getTracedFlow`.
use pcap_sidecar.Common.{
  ℕ, ◌<◌, ◌≤◌, ◌≡◌, ◌⊎◌, refl, subst, Bool, true, false, Option, none, some, List, [], ◌∷◌, arith,
  ltb, nat_eq, ◌==◌, if◌then◌else◌, Bool-cases, Option-cases, inl, inr,
}
use pcap_sidecar.Common.Maps.{lookup}
use pcap_sidecar.Flows.Libs.{IsAscending, IsSorted}

-- The value stands at `key`, which satisfies the test, and every key of the items that does is at most it.
pub record IsGreatest (test : ℕ → Bool) (items : List (ℕ × ℕ)) (key tf : ℕ) : Type 0 where
  pub at : lookup items key ≡ some tf
  pub passes : test key ≡ true
  pub greatest : (j v : ℕ) → lookup items j ≡ some v → test j ≡ true → j ≤ key

-- At the greatest key below `ref`; or no key is below it, and at the greatest key of all.
abbrev pub IsLinked : ℕ → List (ℕ × ℕ) → ℕ → Type 0
IsLinked ref items tf =
    ((key : ℕ) × IsGreatest (λ j. ltb j ref) items key tf)
    ⊎ (((j v : ℕ) → lookup items j ≡ some v → ref ≤ j)
        × (key : ℕ) × IsGreatest (λ j. true) items key tf)

pub ascending-above :
    (low : ℕ) (items : List (ℕ × ℕ)) (j v : ℕ)
    → IsAscending low items
    → lookup items j ≡ some v
    → low < j
ascending-above low [] j v a e = absurd (ground (arith, e))
ascending-above low ((k, w) ∷ items) j v (lk, a) e = elim (Bool-cases (k == j)) [
  | inl h ↦ subst (λ n. low < n) ((nat_eq.same_iff k j).0 h) lk
  | inr h ↦ omega (arith, lk, ascending-above k items j v a (ground (arith, e, h)))
]

-- The last item whose key passes a test.
unfoldable pub last_by : (ℕ → Bool) → List (ℕ × ℕ) → Option (ℕ × ℕ)
last_by p [] = none
last_by p ((k, v) ∷ items) = elim (last_by p items) [
  | some found ↦ some found
  | none ↦ if p k then some (k, v) else none
]

pub last_by-none :
    (p : ℕ → Bool) (items : List (ℕ × ℕ)) (j v : ℕ)
    → last_by p items ≡ none
    → lookup items j ≡ some v
    → p j ≡ false
unfolding last_by
last_by-none p [] j v n e = absurd (ground (arith, e))
last_by-none p ((k, w) ∷ items) j v n e = elim (Option-cases (last_by p items)) [
  | inr (f, d) ↦ absurd (ground (arith, n, d))
  | inl d ↦ elim (Bool-cases (k == j)) [
    | inl h ↦ subst (λ i. p i ≡ false) ((nat_eq.same_iff k j).0 h) (ground (arith, n, d))
    | inr h ↦ last_by-none p items j v d (ground (arith, e, h))
  ]
]

pub ascending-IsSorted : (low : ℕ) (items : List (ℕ × ℕ)) → IsAscending low items → IsSorted items
ascending-IsSorted low [] a = a
ascending-IsSorted low ((k, v) ∷ items) a = a.1

pub IsGreatest-last_by :
    (p : ℕ → Bool) (items : List (ℕ × ℕ)) (k tf : ℕ)
    → IsSorted items
    → last_by p items ≡ some (k, tf)
    → IsGreatest p items k tf
unfolding last_by
IsGreatest-last_by p [] k tf a e = absurd (ground (arith, e))
IsGreatest-last_by p ((r, w) ∷ items) k tf a e = elim (Option-cases (last_by p items)) [
  | inr ((i, u), d) ↦
      let rest =
        IsGreatest-last_by p items k tf (ascending-IsSorted r items a) (ground (arith, e, d)) in
      let above = ascending-above r items k tf a rest.at in
      record {
        at = ground (arith, above, rest.at);
        passes = rest.passes;
        greatest = λ j v h t. elim (Bool-cases (r == j)) [
          | inl s ↦ subst (λ n. n ≤ k) ((nat_eq.same_iff r j).0 s) (omega (arith, above))
          | inr s ↦ rest.greatest j v (ground (arith, h, s)) t
        ];
      }
  | inl d ↦ elim (Bool-cases (p r)) [
    | inr t ↦ absurd (ground (arith, e, d, t))
    | inl t ↦
        let here : (r ≡ k) × (w ≡ tf) = ground (arith, e, d, t) in
        record {
          at = ground (arith, here);
          passes = subst (λ n. p n ≡ true) here.0 t;
          greatest = λ j v h q. elim (Bool-cases (r == j)) [
            | inl s ↦ ground (arith, here, (nat_eq.same_iff r j).0 s)
            | inr s ↦ absurd (ground (arith, q, last_by-none p items j v d (ground (arith, h, s))))
          ];
        }
  ]
]

pub last_by-empty : (items : List (ℕ × ℕ)) → last_by (λ j. true) items ≡ none → items ≡ []
unfolding last_by
last_by-empty [] e = refl
last_by-empty ((k, v) ∷ items) e = absurd (ground (arith, e))
