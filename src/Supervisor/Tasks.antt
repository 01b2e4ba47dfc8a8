-- ===== src/Supervisor/Tasks.antt =====
-- `createTasks`: the captures of each device.
use pcap_sidecar.Common.{
  ℕ, String, Bool, true, false, not, ◌&&◌, Option, none, some, List, [], ◌∷◌, ◌++◌, if◌then◌else◌,
}

pub record Device : Type 0 where
  pub index : ℕ
  pub name : String

-- `pcapTask`, of engines `E` and writers `A`.
pub record PcapTask (E A : Type 0) : Type 0 where
  pub engine : E
  pub writers : List A
  pub iface : String

pub record TaskFlags : Type 0 where
  pub tcpdump : Bool
  pub jsondump : Bool
  pub jsonlog : Bool
  pub is_gae : Bool

-- What the constructors answer for a device; `none` is an error.
pub record Answers (E A : Type 0) : Type 0 where
  pub new_tcpdump : Device → Option E
  pub new_pcap : Device → Option E
  pub file_writer : Device → Option A
  pub stdout_writer : Device → Option A
  pub gae_writer : Device → Option A

-- A writer that is asked for and made.
abbrev pub writer_if : {A : Type 0} → Bool → Option A → List A → List A
writer_if true (some w) writers = writers ++ w ∷ []
writer_if true none writers = writers
writer_if false made writers = writers

module _ {E A : Type 0} where
  -- The writers of the JSON capture of a device.
  unfoldable pub json_writers : TaskFlags → Answers E A → Device → List A
  json_writers f make d =
      writer_if f.is_gae (make.gae_writer d)
        (writer_if f.jsonlog (make.stdout_writer d) (writer_if f.jsondump (make.file_writer d) []))

  abbrev pub task_of : Option E → List A → Device → List (PcapTask E A)
  task_of none writers d = []
  task_of (some engine) writers d =
      record { engine = engine; writers = writers; iface = d.name } ∷ []

  -- The body of the loop: the tasks that it appends.
  unfoldable pub device_tasks : TaskFlags → Answers E A → Device → List (PcapTask E A)
  unfolding json_writers
  device_tasks f make d =
      (if f.tcpdump then task_of (make.new_tcpdump d) [] d else [])
      ++ (if not f.jsondump && not f.jsonlog
          then []
          else task_of (make.new_pcap d) (json_writers f make d) d)

  -- `createTasks`, with the devices that it has found.
  unfoldable pub create_tasks : TaskFlags → Answers E A → List Device → List (PcapTask E A)
  unfolding device_tasks
  create_tasks f make [] = []
  create_tasks f make (d ∷ devices) = device_tasks f make d ++ create_tasks f make devices
