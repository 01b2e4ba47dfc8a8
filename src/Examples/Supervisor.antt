-- ===== src/Examples/Supervisor.antt =====
-- The supervisor on some flags and answers.
use pcap_sidecar.Common.{
  ℕ, ◌+◌, ◌<◌, ◌≤◌, ◌≡◌, refl, String, true, false, none, some, [], ◌∷◌, string_eq, ◌==◌, arith,
}
use pcap_sidecar.Engines.Gopacket.{valid_ephemerals}
use pcap_sidecar.Supervisor.Setup.{
  parse_uint16, parse_digits, split_two, default_range, parse_ephemeral_ports, FilterFlags,
  Factories, simple_filters, choose_filters, append_filter, set_up_filters, raw_filter,
  no_procs_interval,
}
use pcap_sidecar.Supervisor.Tasks.{Device, create_tasks, device_tasks, json_writers}
use pcap_sidecar.Supervisor.Stops.{
  Stop, new_stop, StopReaches, stays, steps, sends, takes, wait_done, rotates, closes_writer,
  signals, unlocks,
}
use pcap_sidecar.Supervisor.Ranges.{parse_ephemeral_ports-default}
use pcap_sidecar.Supervisor.Devices.{deadlines-served}

-- A range that the flag asks for.
parse_ephemeral_ports-default_example :
    (parse_ephemeral_ports "40000,50000" ≡ default_range)
    × (valid_ephemerals (some (parse_ephemeral_ports "40000,50000")) ≡ default_range)
parse_ephemeral_ports-default_example = parse_ephemeral_ports-default "40000,50000"

test_parse_uint16 :
    (parse_uint16 "40000" ≡ (40000, false))
    × (parse_uint16 "70000" ≡ (65535, true))
    × (parse_uint16 "x" ≡ (0, true))
    × (split_two "1,2,3" ≡ some ("1", "2,3"))
unfolding parse_uint16 parse_digits split_two
test_parse_uint16 = (refl, refl, refl, refl)

test_no_procs_interval : (no_procs_interval 300 ≡ 240) × (no_procs_interval 0 ≡ 0)
unfolding no_procs_interval
test_no_procs_interval = (refl, refl)

abbrev flags : FilterFlags
flags = record {
  compat = false;
  filter = "DISABLED";
  l3_protos = "ipv4";
  l4_protos = "ALL";
  ports = "";
  tcp_flags = "syn";
}

abbrev make : Factories String
make = record {
  l3_proto = λ s. s;
  l4_proto = λ s. s;
  ports = λ s. s;
  tcp_flags = λ s. s;
  ip = none;
  process = "process";
}

test_set_up_filters :
    set_up_filters (λ s t. s == t) (λ s. s) false flags make ≡ ("", "ipv4" ∷ "syn" ∷ "process" ∷ [])
unfolding set_up_filters choose_filters simple_filters append_filter raw_filter
test_set_up_filters = refl

-- Two engines, one of which has its deadline.
abbrev served : Stop
served = record { tasks = 2; unsent = 1; buffered = 0; waiting = 1; closed = false }

served_reached : StopReaches (new_stop 2) served
unfolding new_stop
served_reached = steps (steps stays (sends 1 refl refl (omega arith))) (takes 1 0 refl refl)

deadlines-served_example :
    (0 < served.unsent → served.buffered < served.tasks)
    × (0 < served.waiting → 0 < served.buffered + served.unsent)
    × (served.unsent ≡ 0 → served.waiting ≤ served.buffered)
deadlines-served_example = deadlines-served 2 served served_reached

abbrev device : Device
device = record { index = 2; name = "eth1" }

-- The standard output cannot be used: a JSON capture without writers.
test_create_tasks :
    create_tasks {E = String} {A = ℕ}
      (record { tcpdump = true; jsondump = false; jsonlog = true; is_gae = false })
      (record {
        new_tcpdump = λ d. some "tcpdump";
        new_pcap = λ d. some "pcap";
        file_writer = λ d. some 1;
        stdout_writer = λ d. none;
        gae_writer = λ d. some 3;
      })
      (device ∷ [])
    ≡ record { engine = "tcpdump"; writers = []; iface = "eth1" }
      ∷ record { engine = "pcap"; writers = []; iface = "eth1" }
      ∷ []
unfolding create_tasks device_tasks json_writers
test_create_tasks = refl

test_wait_done :
    wait_done {E = String} {A = ℕ}
      (record { engine = "pcap"; writers = 1 ∷ 2 ∷ []; iface = "eth1" } ∷ [])
      true
      true
    ≡ rotates 1 ∷ closes_writer 1 ∷ rotates 2 ∷ closes_writer 2 ∷ signals true ∷ unlocks true ∷ []
unfolding wait_done
test_wait_done = refl
