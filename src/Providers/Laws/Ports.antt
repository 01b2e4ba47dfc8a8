-- ===== src/Providers/Laws/Ports.antt =====
-- The ports that reach the in-process filters, and the entries that reach the expression.
use pcap_sidecar.Common.{
  ℕ, ◌≡◌, refl, ap, ◌∙◌, String, Bool, true, false, not, ◌&&◌, ◌||◌, List, [], ◌∷◌, arith, nat_eq,
  string_eq, ◌==◌, fold, any, Bool-cases, inl, inr,
}
use pcap_sidecar.Common.Members.{is_member, any-to_slice_set_of, contains_one-set_of}
use pcap_sidecar.Filters.Libs.{FilterLibs}
use pcap_sidecar.Filters.Config.{PcapFilters, add_port}
use pcap_sidecar.Providers.Texts.{TextLibs, set_of, is_unset}
use pcap_sidecar.Providers.Ports.{port_each, ports_each}

-- The port that an entry adds.
abbrev pub names_port : TextLibs → ℕ → String → Bool
names_port T n entry = not (is_unset T entry) && n == (T.parse_uint16 entry).0

same_unset : (T : TextLibs) (x e : String) → (x == e) ≡ true → is_unset T x ≡ is_unset T e
same_unset T x e h = ap (is_unset T) ((string_eq.same_iff x e).0 h)

module _ {L : FilterLibs} (T : TextLibs) where
  port_each-unset :
      (f : PcapFilters L) (s : T.texts.Carrier) (e : String)
      → is_unset T e ≡ true
      → port_each T (f, s) e ≡ (f, T.texts.del s e)
  unfolding port_each
  port_each-unset f s e u = rw u refl

  port_each-set :
      (f : PcapFilters L) (s : T.texts.Carrier) (e : String)
      → is_unset T e ≡ false
      → port_each T (f, s) e ≡ (add_port f (T.parse_uint16 e).0, s)
  unfolding port_each
  port_each-set f s e u = ground (arith, u, T.parse_uint16_bound e)

  module _ (f : PcapFilters L) (v n : ℕ) where
    ports-add_port :
        L.sets.contains_one (add_port f v).l4.ports n ≡ (n == v || L.sets.contains_one f.l4.ports n)
    unfolding add_port
    ports-add_port = L.sets.contains_one-add f.l4.ports v n

  fold-ports :
      (entries : List String) (f : PcapFilters L) (s : T.texts.Carrier) (n : ℕ)
      → L.sets.contains_one (fold (port_each T) (f, s) entries).0.l4.ports n
        ≡ (any (names_port T n) entries || L.sets.contains_one f.l4.ports n)
  fold-ports [] f s n = refl
  fold-ports (e ∷ entries) f s n = elim (Bool-cases (is_unset T e)) [
    | inl u ↦
        ap
          (λ (r : PcapFilters L × T.texts.Carrier).
            L.sets.contains_one (fold (port_each T) r entries).0.l4.ports n)
          (port_each-unset f s e u)
        ∙ fold-ports entries f (T.texts.del s e) n
        ∙ ground (arith, u)
    | inr u ↦
        ap
          (λ (r : PcapFilters L × T.texts.Carrier).
            L.sets.contains_one (fold (port_each T) r entries).0.l4.ports n)
          (port_each-set f s e u)
        ∙ fold-ports entries (add_port f (T.parse_uint16 e).0) s n
        ∙ ground (arith, u, ports-add_port f (T.parse_uint16 e).0 n)
  ]

  fold-entries :
      (entries : List String) (f : PcapFilters L) (s : T.texts.Carrier) (x : String)
      → T.texts.contains_one (fold (port_each T) (f, s) entries).1 x
        ≡ (not (is_member x entries && is_unset T x) && T.texts.contains_one s x)
  fold-entries [] f s x = refl
  fold-entries (e ∷ entries) f s x = elim (Bool-cases (is_unset T e)) [
    | inl u ↦
        ap
          (λ (r : PcapFilters L × T.texts.Carrier).
            T.texts.contains_one (fold (port_each T) r entries).1 x)
          (port_each-unset f s e u)
        ∙ fold-entries entries f (T.texts.del s e) x
        ∙ elim (Bool-cases (x == e)) [
          | inl h ↦ ground (arith, h, u, same_unset T x e h, T.texts.contains_one-del s e x)
          | inr h ↦ ground (arith, h, u, T.texts.contains_one-del s e x)
        ]
    | inr u ↦
        ap
          (λ (r : PcapFilters L × T.texts.Carrier).
            T.texts.contains_one (fold (port_each T) r entries).1 x)
          (port_each-set f s e u)
        ∙ fold-entries entries (add_port f (T.parse_uint16 e).0) s x
        ∙ elim (Bool-cases (x == e)) [
          | inl h ↦ ground (arith, h, u, same_unset T x e h)
          | inr h ↦ ground (arith, h, u)
        ]
  ]

  -- The entries but the empty one and the words ALL and ANY each add the port that their parse
  -- returns, an error included, and no other port is added; and all of these entries, and no other,
  -- stay in the expression, whether they are port numbers or not.
  pub ports_each-entries :
      (ports : List String) (f : PcapFilters L) (n : ℕ) (x : String)
      → (L.sets.contains_one (ports_each T ports f).0.l4.ports n
          ≡ (any (names_port T n) ports || L.sets.contains_one f.l4.ports n))
        × (T.texts.contains_one (ports_each T ports f).1 x
            ≡ (not (is_unset T x) && is_member x ports))
  unfolding ports_each
  ports_each-entries ports f n x = (
    fold-ports (T.texts.to_slice (set_of T ports)) f (set_of T ports) n
        ∙ ap (λ b. b || L.sets.contains_one f.l4.ports n)
            (any-to_slice_set_of T.texts (names_port T n) ports),
    fold-entries (T.texts.to_slice (set_of T ports)) f (set_of T ports) x
        ∙ ground
            (arith, T.texts.any-to_slice (set_of T ports) x, contains_one-set_of T.texts ports x),
  )
