-- ===== src/Processes/Parts.antt =====
-- The parts of a socket's key.
use Prim.Native.Char.{Char, code}
use Prim.Native.String.append
use Prim.Native.String.{[] as nil, ◌∷◌ as cons, ◌++◌ as concat}
use text.Mathlib.TextLemmas.{append_assoc}
use pcap_sidecar.Common.{
  ℕ, zero, suc, ◌≡◌, refl, ap, ◌∙◌, String, Bool, true, not, ◌&&◌, some, List, [], ◌∷◌, arith,
  nat_eq, ◌==◌, length, Bool-cases, inl, inr,
}
use pcap_sidecar.Providers.Texts.{prepend}
use pcap_sidecar.Processes.Keys.{
  ProcessInfo, TcpSocket, split_n, of_parts, new_socket_key, to_socket,
}

-- The text has no slash.
unfoldable pub no_slash : String → Bool
no_slash nil = true
no_slash (cons c s) = let rest = no_slash s in not (code c == 47) && rest

concat-slash : (t : String) → concat "/" t ≡ cons "/" t
concat-slash t = append.cons "/" nil t ∙ ap (cons "/") (append.nil t)

split_n-part :
    (a t : String) (n : ℕ)
    → no_slash a ≡ true
    → split_n (concat a (concat "/" t)) (suc n) ≡ a ∷ split_n t n
unfolding split_n no_slash
split_n-part nil t n e = rw (append.nil (concat "/" t), concat-slash t) refl
split_n-part (cons c a) t n e =
    rw (append.cons c a (concat "/" t)) (ground (arith, e, split_n-part a t n))

length-prepend :
    (c : Char) (n : ℕ) (xs : List String) → length xs ≡ suc n → length (prepend c xs) ≡ suc n
length-prepend c n [] e = absurd (ground (arith, e))
length-prepend c n (x ∷ xs) e = e

prepend-length :
    (c : Char) (n : ℕ) (xs : List String)
    → length (prepend c xs) ≡ suc (suc n)
    → length xs ≡ suc (suc n)
prepend-length c n [] e = absurd (ground (arith, e))
prepend-length c n (x ∷ xs) e = e

-- With at least two parts, there are as many as are asked for when one part less is asked for.
length-split_n_fewer :
    (s : String) (n : ℕ) → length (split_n s (suc n)) ≡ suc (suc n) → length (split_n s n) ≡ suc n
unfolding split_n
length-split_n_fewer s zero e = refl
length-split_n_fewer nil (suc n) e = absurd (ground (arith, e))
length-split_n_fewer (cons c s) (suc n) e = elim (Bool-cases (code c == 47)) [
  | inl h ↦ ground (arith, e, h, length-split_n_fewer s n)
  | inr h ↦
      let more = prepend-length c (suc n) (split_n s (suc (suc n))) (ground (arith, e, h)) in
      ground (
        arith,
        h,
        length-prepend c (suc n) (split_n s (suc n)) (length-split_n_fewer s (suc n) more),
      )
]

length-split_n_part :
    (a t : String) (n : ℕ)
    → length (split_n t n) ≡ suc n
    → length (split_n (concat a (concat "/" t)) (suc n)) ≡ suc (suc n)
unfolding split_n
length-split_n_part nil t n e = rw (append.nil (concat "/" t), concat-slash t) (ap suc e)
length-split_n_part (cons c a) t n e = rw (append.cons c a (concat "/" t)) (
    let rest = length-split_n_part a t n e in
    elim (Bool-cases (code c == 47)) [
      | inl h ↦ ground (arith, h, length-split_n_fewer (concat a (concat "/" t)) n rest)
      | inr h ↦
          ground
            (arith, h, length-prepend c (suc n) (split_n (concat a (concat "/" t)) (suc n)) rest)
    ])

pub of_parts-length :
    (process : ProcessInfo) (parts : List String)
    → length parts ≡ 4
    → (socket : TcpSocket) × (of_parts process parts ≡ some socket)
of_parts-length process (a ∷ b ∷ c ∷ d ∷ rest) e = (_, refl)
of_parts-length process (a ∷ b ∷ c ∷ []) e = absurd (ground (arith, e))
of_parts-length process (a ∷ b ∷ []) e = absurd (ground (arith, e))
of_parts-length process (a ∷ []) e = absurd (ground (arith, e))
of_parts-length process [] e = absurd (ground (arith, e))

module _ (process : ProcessInfo) (socket : TcpSocket) where
  -- The key of a socket has the four parts that `toSocket` takes, whatever texts it is made of.
  pub length-split_n-new_socket_key : length (split_n (new_socket_key process socket) 3) ≡ 4
  unfolding new_socket_key split_n
  length-split_n-new_socket_key = rw (append_assoc process.key "/" _) (
      length-split_n_part process.key _ 2 (
        length-split_n_part socket.protocol _ 1
          (length-split_n_part socket.local_addr socket.remote_addr 0 refl)))

  -- When the process's key, the protocol and the local address have no slash, the socket that the
  -- key is turned back into is the socket, as one of the process.
  pub to_socket-new_socket_key :
      no_slash process.key ≡ true
      → no_slash socket.protocol ≡ true
      → no_slash socket.local_addr ≡ true
      → to_socket process (new_socket_key process socket)
        ≡ some (record socket { program = process.name; pid = process.id })
  unfolding to_socket new_socket_key split_n
  to_socket-new_socket_key k p l =
      rw
        (
          append_assoc process.key "/" _,
          split_n-part process.key
              (concat socket.protocol
                (concat "/" (concat socket.local_addr (concat "/" socket.remote_addr))))
              2 k,
          split_n-part socket.protocol (concat socket.local_addr (concat "/" socket.remote_addr)) 1
              p,
          split_n-part socket.local_addr socket.remote_addr 0 l,
        )
        refl
