-- ===== src/Providers/Apply.antt =====
-- `applyFilter`, and the composition of the expressions by `providePcapFilter`.
use Prim.Native.Char.{Char}
use Prim.Native.String.{◌++◌ as concat, [] as nil, ◌∷◌ as cons}
use pcap_sidecar.Common.{
  ℕ, ◌≡◌, ◌≢◌, refl, sym, ap, ◌∙◌, String, Bool, true, false, not, ◌&&◌, Option, none, some, List,
  [], ◌∷◌, Bool-cases, inl, inr, nat_eq, string_eq, ◌==◌, if◌then◌else◌,
}
use pcap_sidecar.Providers.Texts.{join, join_rest, paren}
use text.Mathlib.TextLemmas.{append-nil, append_assoc}
use Prim.Native.String.append

abbrev pub pcap_filter_mode_and : ℕ
pcap_filter_mode_and = 0

abbrev pub pcap_filter_mode_or : ℕ
pcap_filter_mode_or = 1

unfoldable pub pcap_default_filter : String
pcap_default_filter = "(tcp or udp or icmp or icmp6) and (ip or ip6 or arp)"

-- `applyFilter`: what `Get` answers is `none` where its Boolean is false.
unfoldable pub apply_filter : String → Option String → ℕ → String
unfolding paren
apply_filter src none mode = src
apply_filter src (some filter) mode =
    if filter == ""
    then src
    else if src == ""
    then paren filter
    else if mode == pcap_filter_mode_and
    then concat src (concat " and " (paren filter))
    else if mode == pcap_filter_mode_or
    then concat src (concat " or " (paren filter))
    else filter

-- A provider: its `Get` on the in-process filters of type F. A nil provider is `none`.
abbrev pub Provider : Type 0 → Type 0
Provider F = F → F × Option String

abbrev pub is_given : (String → String → Bool) → Option String → Bool
is_given equal_fold none = false
is_given equal_fold (some s) = not (s == "") && not (equal_fold s "DISABLED")

abbrev pub text_of : Option String → String
text_of none = ""
text_of (some s) = s

unfoldable pub keep_expression : Option String → List String → List String
keep_expression none rest = rest
keep_expression (some s) rest = if s == "" then rest else paren s ∷ rest

module _ {F : Type 0} where
  -- The loop over the providers.
  unfoldable pub apply_all : List (Option (Provider F)) → F → String → F × String
  apply_all [] f pcap_filter = (f, pcap_filter)
  apply_all (none ∷ providers) f pcap_filter = apply_all providers f pcap_filter
  apply_all (some get ∷ providers) f pcap_filter =
      let (f', filter) = get f in
      apply_all providers f' (apply_filter pcap_filter filter pcap_filter_mode_and)

  unfoldable pub no_providers : List (Option (Provider F)) → Bool
  no_providers [] = true
  no_providers (p ∷ providers) = false

  -- `providePcapFilter`
  unfoldable pub provide_pcap_filter :
      (String → String → Bool)
      → Bool
      → Option String
      → List (Option (Provider F))
      → F
      → F × Option String
  unfolding apply_all pcap_default_filter
  provide_pcap_filter equal_fold ctx_done filter providers f =
      if ctx_done
      then (f, filter)
      else if is_given equal_fold filter
      then (f, some (paren (text_of filter)))
      else if no_providers providers
      then (f, some pcap_default_filter)
      else let (f', s) = apply_all providers f "" in (f', some s)

  -- The expressions that the providers give, each called on what those before it have left.
  unfoldable pub expressions : List (Option (Provider F)) → F → List String
  expressions [] f = []
  expressions (none ∷ providers) f = expressions providers f
  expressions (some get ∷ providers) f =
      let (f', filter) = get f in keep_expression filter (expressions providers f')

true≢false : ◌≡◌ {A = Bool} true false → ⊥
true≢false e = cc

cons≢nil : (c : Char) (s : String) → cons c s ≢ nil
cons≢nil c s e = cc

cons-nonempty : (c : Char) (s : String) → (cons c s == "") ≡ false
cons-nonempty c s = elim (Bool-cases (cons c s == "")) [
  | inl e ↦ absurd (cons≢nil c s ((string_eq.same_iff (cons c s) "").0 e))
  | inr e ↦ e
]

concat-nonempty : (s t : String) → (s == "") ≡ false → (concat s t == "") ≡ false
concat-nonempty nil t h = absurd (true≢false h)
concat-nonempty (cons c s) t h = rw (append.cons c s t) (cons-nonempty c (concat s t))

paren-nonempty : (s : String) → (paren s == "") ≡ false
unfolding paren
paren-nonempty s = concat-nonempty "(" (concat s ")") refl

-- The cases of one application in the mode of a conjunction.
module _ (src s : String) where
  apply_filter-none : apply_filter src none pcap_filter_mode_and ≡ src
  unfolding apply_filter
  apply_filter-none = refl

  apply_filter-empty : (s == "") ≡ true → apply_filter src (some s) pcap_filter_mode_and ≡ src
  unfolding apply_filter
  apply_filter-empty e = rw e refl

  apply_filter-first :
      (s == "") ≡ false
      → (src == "") ≡ true
      → apply_filter src (some s) pcap_filter_mode_and ≡ paren s
  unfolding apply_filter
  apply_filter-first e n = rw (e, n) refl

  apply_filter-and :
      (s == "") ≡ false
      → (src == "") ≡ false
      → apply_filter src (some s) pcap_filter_mode_and ≡ concat src (concat " and " (paren s))
  unfolding apply_filter
  apply_filter-and e n = rw (e, n) refl

-- One provider, when `tail` is what the rest of the loop makes of the expression so far.
module _ (rest : List String) (tail : String → String)
    (from : (src : String)
      → (src == "") ≡ false
      → tail src ≡ concat src (join_rest " and " rest)) where
  step-from :
      (r : Option String) (src : String)
      → (src == "") ≡ false
      → tail (apply_filter src r pcap_filter_mode_and)
        ≡ concat src (join_rest " and " (keep_expression r rest))
  unfolding keep_expression join_rest
  step-from none src h = ap tail (apply_filter-none src "") ∙ from src h
  step-from (some s) src h = elim (Bool-cases (s == "")) [
    | inl b ↦ rw b (ap tail (apply_filter-empty src s b) ∙ from src h)
    | inr b ↦ rw b (
        ap tail (apply_filter-and src s b h)
        ∙ from (concat src (concat " and " (paren s))) (concat-nonempty src _ h)
        ∙ append_assoc src _ _
        ∙ ap (concat src) (append_assoc " and " (paren s) _))
  ]

  step-first :
      (r : Option String)
      → tail "" ≡ join " and " rest
      → tail (apply_filter "" r pcap_filter_mode_and) ≡ join " and " (keep_expression r rest)
  unfolding keep_expression join
  step-first none first = ap tail (apply_filter-none "" "") ∙ first
  step-first (some s) first = elim (Bool-cases (s == "")) [
    | inl b ↦ rw b (ap tail (apply_filter-empty "" s b) ∙ first)
    | inr b ↦ rw b (ap tail (apply_filter-first "" s b refl) ∙ from (paren s) (paren-nonempty s))
  ]

module _ {F : Type 0} where
  apply_all-from :
      (providers : List (Option (Provider F))) (f : F) (src : String)
      → (src == "") ≡ false
      → (apply_all providers f src).1 ≡ concat src (join_rest " and " (expressions providers f))
  unfolding apply_all expressions join_rest
  apply_all-from [] f src h = sym (append-nil src)
  apply_all-from (none ∷ providers) f src h = apply_all-from providers f src h
  apply_all-from (some get ∷ providers) f src h =
      step-from (expressions providers (get f).0) (λ s. (apply_all providers (get f).0 s).1)
        (apply_all-from providers (get f).0) (get f).1 src h

  apply_all-first :
      (providers : List (Option (Provider F))) (f : F)
      → (apply_all providers f "").1 ≡ join " and " (expressions providers f)
  unfolding apply_all expressions join
  apply_all-first [] f = refl
  apply_all-first (none ∷ providers) f = apply_all-first providers f
  apply_all-first (some get ∷ providers) f =
      step-first (expressions providers (get f).0) (λ s. (apply_all providers (get f).0 s).1)
        (apply_all-from providers (get f).0) (get f).1 (apply_all-first providers (get f).0)

  -- With providers, no expression of the configuration and a context that is not done, the expression
  -- is the conjunction of what the providers give, each in parentheses, in order: a provider that is
  -- nil, gives nothing or gives the empty text is left out.
  pub provide_pcap_filter-joins :
      (equal_fold : String → String → Bool) (filter : Option String)
      (providers : List (Option (Provider F))) (f : F)
      → is_given equal_fold filter ≡ false
      → no_providers providers ≡ false
      → (provide_pcap_filter equal_fold false filter providers f).1
        ≡ some (join " and " (expressions providers f))
  unfolding provide_pcap_filter
  provide_pcap_filter-joins equal_fold filter providers f g n =
      rw (g, n) (ap some (apply_all-first providers f))
