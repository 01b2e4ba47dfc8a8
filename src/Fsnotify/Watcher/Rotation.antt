-- ===== src/Fsnotify/Watcher/Rotation.antt =====
-- Every capture file but the current one of its interface is exported once, in order.
use mathlib.Core.List.{append-nil}
use text.Mathlib.TextEquality.{eq_iff}
use pcap_sidecar.Common.{
  ◌+◌, ◌^◌, ◌<◌, ◌-◌, ◌≡◌, ◌≢◌, refl, sym, ap, ap₂, subst, same_self, ◌∙◌, String, Bool, true,
  false, Option, none, some, List, [], ◌∷◌, ◌++◌, arith, nat_eq, string_eq, ◌==◌, if◌then◌else◌,
  length, length-append, Option-cases, inl, inr,
}
use pcap_sidecar.Fsnotify.Watcher.Defs.{
  WatcherLibs, Watcher, count_of, next_iteration, move_last, count_and_rotate,
}

-- The files of one key, in order.
module _ (W : WatcherLibs) (key : String) where
  unfoldable pub has_key : String → Bool
  has_key file = elim (W.key_of file) [ some k ↦ k == key | none ↦ false ]

  unfoldable pub of_key : List String → List String
  of_key [] = []
  of_key (f ∷ fs) = if has_key f then f ∷ of_key fs else of_key fs

  abbrev pub just_if : Bool → String → List String
  just_if b f = if b then f ∷ [] else []

  of_key-append : (fs gs : List String) → of_key (fs ++ gs) ≡ of_key fs ++ of_key gs
  unfolding of_key
  of_key-append [] gs = refl
  of_key-append (f ∷ fs) gs = ground (arith, of_key-append fs gs)

abbrev pub to_list : Option String → List String
to_list none = []
to_list (some f) = f ∷ []

-- What the watcher keeps for one key, when it has seen the files `seen`.
pub record KeepsKey {W : WatcherLibs} (key : String) (seen : List String) (s : Watcher W)
    : Type 0 where
  pub split : of_key W key s.moved ++ to_list (W.names.get s.last_pcap key) ≡ of_key W key seen
  pub counted : count_of W s.counters key ≡ length (of_key W key seen)
  pub fresh : length (of_key W key seen) ≡ 0 → W.names.get s.last_pcap key ≡ none
  pub held : 0 < length (of_key W key seen) → W.names.get s.last_pcap key ≢ none
  pub own :
      (f : String)
      → W.names.get s.last_pcap key ≡ some f
      → (has_key W key f ≡ true) × ((f == "") ≡ false)

abbrev pub Keeps : {W : WatcherLibs} → List String → Watcher W → Type 0
Keeps {W} seen s = (key : String) → KeepsKey key seen s

has_key_self :
    (W : WatcherLibs) (file key : String) → W.key_of file ≡ some key → has_key W key file ≡ true
unfolding has_key
has_key_self W file key e = ground (arith, eq_iff key key)

has_key_other :
    (W : WatcherLibs) (file key j : String)
    → has_key W key file ≡ true
    → (key == j) ≡ false
    → has_key W j file ≡ false
unfolding has_key
has_key_other W file key j h ne = elim (Option-cases (W.key_of file)) [
  | inl e ↦ ground arith
  | inr (k, e) ↦ ground (arith, eq_iff k key, eq_iff k j)
]

module _ {W : WatcherLibs} (s : Watcher W) (key : String) where
  -- The state after one more file of `key`: what was last is handed to the exporter.
  unfoldable pub turned : String → Watcher W
  turned file = record s {
    moved = s.moved ++ to_list (W.names.get s.last_pcap key);
    counters = W.counts.set s.counters key (count_of W s.counters key + 1);
    last_pcap = W.names.set s.last_pcap key file;
  }

  pub count_and_rotate-turned :
      (seen : List String) (file : String) (ok : Bool)
      → KeepsKey key seen s
      → length (of_key W key seen) < 2 ^ 64 - 1
      → (count_and_rotate ok key file s).0 ≡ turned file
  unfolding count_and_rotate next_iteration move_last turned
  count_and_rotate-turned seen file ok k few = elim (Option-cases (W.names.get s.last_pcap key)) [
    | inl e ↦ ground (arith, append-nil s.moved)
    | inr (p, e) ↦ ground (arith, k.own p e, eq_iff p p)
  ]

  names-turned :
      (file j : String)
      → W.names.get (turned file).last_pcap j
        ≡ (if key == j then some file else W.names.get s.last_pcap j)
  unfolding turned
  names-turned file j = W.names.get-set s.last_pcap key file j

  count_of-turned :
      (file j : String)
      → count_of W (turned file).counters j
        ≡ (if key == j then count_of W s.counters key + 1 else count_of W s.counters j)
  unfolding turned
  count_of-turned file j =
      ground (arith, W.counts.get-set s.counters key (count_of W s.counters key + 1) j)

  moved-turned :
      (file j : String)
      → of_key W j (turned file).moved
        ≡ of_key W j s.moved ++ of_key W j (to_list (W.names.get s.last_pcap key))
  unfolding turned
  moved-turned file j = of_key-append W j s.moved (to_list (W.names.get s.last_pcap key))

module _ {W : WatcherLibs} (s : Watcher W) (seen : List String) (file key : String)
    (keyed : W.key_of file ≡ some key) (named : (file == "") ≡ false) where
  of_key-seen_other :
      (j : String) → (key == j) ≡ false → of_key W j (seen ++ file ∷ []) ≡ of_key W j seen
  unfolding of_key
  of_key-seen_other j ne =
      of_key-append W j seen (file ∷ [])
      ∙ ap (λ l. of_key W j seen ++ l)
          (ground (arith, has_key_other W file key j (has_key_self W file key keyed) ne))
      ∙ append-nil (of_key W j seen)

  of_key-seen_own : of_key W key (seen ++ file ∷ []) ≡ of_key W key seen ++ file ∷ []
  unfolding of_key
  of_key-seen_own =
      of_key-append W key seen (file ∷ [])
      ∙ ap (λ l. of_key W key seen ++ l) (ground (arith, has_key_self W file key keyed))

  of_key-last :
      (j : String)
      → KeepsKey key seen s
      → of_key W j (to_list (W.names.get s.last_pcap key))
        ≡ (if key == j then to_list (W.names.get s.last_pcap key) else [])
  unfolding of_key
  of_key-last j k = elim (Option-cases (W.names.get s.last_pcap key)) [
    | inl e ↦ ground arith
    | inr (p, e) ↦
        ground (arith, (k.own p e).0, has_key_other W p key j (k.own p e).0, eq_iff key j)
  ]

  -- The turn of one key leaves what is kept for the others.
  pub turned-other :
      (j : String)
      → (key == j) ≡ false
      → KeepsKey key seen s
      → KeepsKey j seen s
      → KeepsKey j (seen ++ file ∷ []) (turned s key file)
  turned-other j ne own k = record {
    split = ap₂ ◌++◌ m (ap to_list n) ∙ k.split ∙ sym seen_eq;
    counted = rw ne at (count_of-turned s key file j) ∙ k.counted ∙ ap length (sym seen_eq);
    fresh = λ h. n ∙ k.fresh (ap length (sym seen_eq) ∙ h);
    held = λ h e. k.held (subst (λ (l : List String). 0 < length l) seen_eq h) (sym n ∙ e);
    own = λ f e. k.own f (sym n ∙ e);
  }
    where
      seen_eq : of_key W j (seen ++ file ∷ []) ≡ of_key W j seen
      seen_eq = of_key-seen_other j ne

      n : W.names.get (turned s key file).last_pcap j ≡ W.names.get s.last_pcap j
      n = rw ne at (names-turned s key file j)

      m : of_key W j (turned s key file).moved ≡ of_key W j s.moved
      m =
          moved-turned s key file j
          ∙ ap (λ l. of_key W j s.moved ++ l) (rw ne at (of_key-last j own))
          ∙ append-nil (of_key W j s.moved)

  pub turned-own : KeepsKey key seen s → KeepsKey key (seen ++ file ∷ []) (turned s key file)
  turned-own k = record {
    split = ap₂ ◌++◌ (m ∙ k.split) (ap to_list n) ∙ sym of_key-seen_own;
    counted = omega (arith, c, k.counted, grown);
    fresh = λ h. absurd (omega (arith, grown));
    held = λ h e. cc (n, e);
    own = λ f e. own_file f (sym n ∙ e);
  }
    where
      self : (key == key) ≡ true
      self = same_self key

      n : W.names.get (turned s key file).last_pcap key ≡ some file
      n = rw self at (names-turned s key file key)

      c : count_of W (turned s key file).counters key ≡ count_of W s.counters key + 1
      c = rw self at (count_of-turned s key file key)

      m :
          of_key W key (turned s key file).moved
          ≡ of_key W key s.moved ++ to_list (W.names.get s.last_pcap key)
      m =
          moved-turned s key file key
          ∙ ap (λ l. of_key W key s.moved ++ l) (rw self at (of_key-last key k))

      grown : length (of_key W key (seen ++ file ∷ [])) ≡ length (of_key W key seen) + 1
      grown = ap length of_key-seen_own ∙ length-append (of_key W key seen) (file ∷ [])

      own_file : (f : String) → some file ≡ some f → (has_key W key f ≡ true) × ((f == "") ≡ false)
      own_file f e =
          let eq : file ≡ f = cc in
          subst (λ x. (has_key W key x ≡ true) × ((x == "") ≡ false)) eq
            (has_key_self W file key keyed, named)
