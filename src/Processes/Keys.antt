-- ===== src/Processes/Keys.antt =====
-- Processes, their sockets, and the keys of sockets.
use Prim.Native.Char.{code}
use Prim.Native.String.{[] as nil, ◌∷◌ as cons, ◌++◌ as concat}
use text.Mathlib.Text.{starts_with}
use pcap_sidecar.Common.{
  ℕ, zero, suc, String, Bool, Option, none, some, List, [], ◌∷◌, nat_eq, ◌==◌, if◌then◌else◌,
}
use pcap_sidecar.Providers.Texts.{prepend}

-- `processInfo`
pub record ProcessInfo : Type 0 where
  pub key : String
  pub name : String
  pub id : ℕ

-- `tcpSocket`, without the file descriptor, which nothing reads.
pub record TcpSocket : Type 0 where
  pub protocol : String
  pub local_addr : String
  pub remote_addr : String
  pub program : String
  pub pid : ℕ

-- `strings.SplitN` at slashes into at most `n` + 1 parts.
unfoldable pub split_n : String → ℕ → List String
split_n s zero = s ∷ []
split_n nil (suc n) = nil ∷ []
split_n (cons c s) (suc n) =
    let fewer = split_n s n in
    let same = split_n s (suc n) in if code c == 47 then nil ∷ fewer else prepend c same

-- `newProcessKey`, with `strconv.Itoa` as an argument.
unfoldable pub new_process_key : (ℕ → String) → String → ℕ → String
new_process_key itoa name id = concat name (concat ":" (itoa id))

-- `isProcessKey`
unfoldable pub is_process_key : ProcessInfo → String → Bool
is_process_key process socket_key = starts_with socket_key (concat process.key "/")

-- `newSocketKey`
unfoldable pub new_socket_key : ProcessInfo → TcpSocket → String
new_socket_key process socket =
    concat (concat process.key "/") (
      concat socket.protocol
        (concat "/" (concat socket.local_addr (concat "/" socket.remote_addr))))

abbrev pub of_parts : ProcessInfo → List String → Option TcpSocket
of_parts process (key ∷ protocol ∷ local ∷ remote ∷ rest) = some (record {
  protocol = protocol;
  local_addr = local;
  remote_addr = remote;
  program = process.name;
  pid = process.id;
})
of_parts process parts = none

-- `toSocket`; `none` is the panic of an index out of range.
unfoldable pub to_socket : ProcessInfo → String → Option TcpSocket
unfolding split_n
to_socket process socket_key = of_parts process (split_n socket_key 3)
