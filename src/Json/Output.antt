-- ===== src/Json/Output.antt =====
-- `toJSONBytes` and `write`: how a translation is given to a writer.
use pcap_sidecar.Common.{
  ℕ, zero, suc, ◌+◌, ◌≡◌, ◌≢◌, refl, ap, ap₂, Bool-cases, inl, inr, ◌∙◌, Option, none, some, [],
  ◌∷◌, ◌++◌, take, drop, length, min, arith, nat_eq, ◌==◌, if◌then◌else◌,
}
use pcap_sidecar.Filters.Worker.{copy_into}
use pcap_sidecar.Json.Libs.{Bytes}

-- `make([]byte, n)`
abbrev pub zeros : ℕ → Bytes
zeros zero = []
zeros (suc n) = 0 ∷ zeros n

-- `copy(b[at:], src)`: the slice, and the number of copied bytes.
unfoldable pub copy_at : Bytes → ℕ → Bytes → Bytes × ℕ
unfolding copy_into
copy_at b at src = (take at b ++ copy_into (drop at b) src, min (length (drop at b)) (length src))

-- The outer of the two copies of `toJSONBytes`.
abbrev pub copy_line_break : Bytes × ℕ → ℕ × Bytes
copy_line_break inner = let outer = copy_at inner.0 inner.1 (10 ∷ []) in (outer.1, outer.0)

-- `toJSONBytes` of a document that can be marshalled: the number and the bytes that it returns.
unfoldable pub to_json_bytes : Bytes → ℕ × Bytes
unfolding copy_at
to_json_bytes translation = copy_line_break (copy_at (zeros (length translation + 1)) 0 translation)

-- What `write` answers.
pub data Written : Type 0 where
  wrote : ℕ → Written
  not_marshalled : Written
  write_failed : Written
  -- The numbers that do not agree.
  incomplete : ℕ → ℕ → Written

-- The end of `write`: `writer` answers with the number of bytes, or with an error.
abbrev pub write_bytes : (Bytes → Option ℕ) → ℕ × Bytes → Written
write_bytes writer r = elim (writer r.1) [
  | none ↦ write_failed
  | some n ↦ if r.0 == n then wrote n else incomplete r.0 n
]

-- `write`: `marshalled` is the document, if it can be marshalled.
unfoldable pub write : (Bytes → Option ℕ) → Option Bytes → Written
unfolding to_json_bytes
write writer none = not_marshalled
write writer (some translation) = write_bytes writer (to_json_bytes translation)

no_bytes : (t : Bytes) → length t ≡ 0 → t ≡ []
no_bytes [] e = refl
no_bytes (b ∷ t) e = absurd (omega (arith, e))

length-zeros : (n : ℕ) → length (zeros n) ≡ n
length-zeros zero = refl
length-zeros (suc n) = ap (λ (k : ℕ). suc k) (length-zeros n)

-- A slice with one place more than the bytes that are copied into it.
copy_into-zeros : (t : Bytes) → copy_into (zeros (suc (length t))) t ≡ t ++ 0 ∷ []
unfolding copy_into
copy_into-zeros [] = refl
copy_into-zeros (b ∷ t) = ap (λ r. b ∷ r) (copy_into-zeros t)

take-append : (t rest : Bytes) → take (length t) (t ++ rest) ≡ t
take-append [] rest = refl
take-append (b ∷ t) rest = ap (λ r. b ∷ r) (take-append t rest)

drop-append : (t rest : Bytes) → drop (length t) (t ++ rest) ≡ rest
drop-append [] rest = refl
drop-append (b ∷ t) rest = drop-append t rest

copy_at-translation : (t : Bytes) → copy_at (zeros (suc (length t))) 0 t ≡ (t ++ 0 ∷ [], length t)
unfolding copy_at
copy_at-translation t =
    let n : min (suc (length (zeros (length t)))) (length t) ≡ length t =
      omega (arith, length-zeros (length t)) in
    ap₂ (λ (x : Bytes) (k : ℕ). (x, k)) (copy_into-zeros t) n

copy_at-line_break : (t : Bytes) → copy_at (t ++ 0 ∷ []) (length t) (10 ∷ []) ≡ (t ++ 10 ∷ [], 1)
unfolding copy_at copy_into
copy_at-line_break t = rw (take-append t (0 ∷ []), drop-append t (0 ∷ [])) refl

-- The bytes are the document and a line break; the number is that of the last copy.
to_json_bytes_lem : (t : Bytes) → to_json_bytes t ≡ (1, t ++ 10 ∷ [])
unfolding to_json_bytes
to_json_bytes_lem t =
    let e : length t + 1 ≡ suc (length t) = omega arith in
    ap (λ (n : ℕ). copy_line_break (copy_at (zeros n) 0 t)) e
    ∙ ap (λ (r : Bytes × ℕ). copy_line_break r) (copy_at-translation t)
    ∙ ap (λ (r : Bytes × ℕ). (r.1, r.0)) (copy_at-line_break t)

-- A writer that takes all bytes of a translation is given the document and a line break, and unless
-- the document is empty, `write` answers with an error: it compares the number of the written bytes
-- with 1.
pub write-complains :
    (writer : Bytes → Option ℕ) (t : Bytes)
    → t ≢ []
    → writer (t ++ 10 ∷ []) ≡ some (length t + 1)
    → write writer (some t) ≡ incomplete 1 (length t + 1)
unfolding write
write-complains writer t n e = elim (Bool-cases (1 == length t + 1)) [
  | inl h ↦ absurd (n (no_bytes t (ground (arith, h))))
  | inr h ↦
      ap (λ (r : ℕ × Bytes). write_bytes writer r) (to_json_bytes_lem t)
      ∙ rw (write_bytes, e, h) refl
]
