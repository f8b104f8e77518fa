-- ===== src/Main/Accepted/Handled.antt =====
-- The faults of what the readers ask of the system: src/CPHFReader.cpp, src/FileStatReader.cpp and
-- src/ProcReader.cpp.
use cphf.Base.{
  ℕ, zero, suc, ◌+◌, ◌*◌, ◌||◌, [], Option, none, some, ◌==◌, ltb, Run, Fault, indeterminate,
  bad_option, null_pointer, bad_number, out_of_range, buffer_overflow, length, Admits, Admits->>=,
  Admits-if,
}
use cphf.Text.{Text, codes}
use cphf.Env.{Env, Stat}
use cphf.Reader.Device.{
  read_device, build_device_map, build_loop, read_driver, DeviceMap, Driver, read_word, build_from,
  build_step, take_label, take_name,
}
use cphf.Proc.{read_ids, entry_of, cached}
use cphf.Proc.Stat.{ProcInfo}
use cphf.FileStat.{read_link, read_file_name, take_link}

-- Neither an option without a case nor an attribute without an id.
abbrev pub IsSystemFault : Fault → Type 0
IsSystemFault indeterminate = ⊥
IsSystemFault (bad_option c) = ⊥
IsSystemFault null_pointer = Unit
IsSystemFault buffer_overflow = Unit
IsSystemFault bad_number = Unit
IsSystemFault out_of_range = Unit

abbrev pub IsHandled {ℓ} : {A : Type ℓ} → Run A → Type 0
IsHandled = Admits IsSystemFault

take_label-IsHandled : (o : Option (Text × Text)) → IsHandled (take_label o)
unfolding take_label
take_label-IsHandled none = tt
take_label-IsHandled (some (device, s)) = Admits-if IsSystemFault (ltb (length device) 5) _ _ tt tt

take_name-IsHandled : (o : Option (Text × Text)) → IsHandled (take_name o)
unfolding take_name
take_name-IsHandled none = tt
take_name-IsHandled (some (name, s)) = take_label-IsHandled (read_word s)

build_step-IsHandled :
    (m : DeviceMap) (continue : Text → DeviceMap → Run DeviceMap)
    → ((s : Text) (m : DeviceMap) → IsHandled (continue s m))
    → (o : Option (Driver × Text)) → IsHandled (build_step m continue o)
unfolding build_step
build_step-IsHandled m continue h none = tt
build_step-IsHandled m continue h (some (d, rest)) = h rest _

build_loop-IsHandled : (fuel : ℕ) (s : Text) (m : DeviceMap) → IsHandled (build_loop fuel s m)
unfolding build_loop
build_loop-IsHandled zero s m = tt
build_loop-IsHandled (suc fuel) s m =
    Admits->>= IsSystemFault (read_driver s) _
      (unfold read_driver in take_name-IsHandled (read_word s))
      λ o e. build_step-IsHandled m (build_loop fuel) (build_loop-IsHandled fuel) o

build_from-IsHandled : (m : DeviceMap) (o : Option Text) → IsHandled (build_from m o)
unfolding build_from
build_from-IsHandled m none = tt
build_from-IsHandled m (some s) = build_loop-IsHandled (suc (length s)) s m

pub read_device-IsHandled : (env : Env) (info : Stat) → IsHandled (read_device env info)
unfolding read_device
read_device-IsHandled env info =
    Admits->>= IsSystemFault (build_device_map env []) _
      (build_from-IsHandled [] (env.open_file (codes "/proc/tty/drivers"))) λ m e. tt

take_link-IsHandled :
    (size : ℕ) (again : Run Text) (o : Option Text)
    → IsHandled again
    → IsHandled (take_link size again o)
unfolding take_link
take_link-IsHandled size again none h = tt
take_link-IsHandled size again (some bytes) h =
    Admits-if IsSystemFault (length bytes == size) _ _ h tt

read_link-IsHandled :
    (env : Env) (path : Text) (shifts size : ℕ) → IsHandled (read_link env path shifts size)
unfolding read_link
read_link-IsHandled env path zero size = tt
read_link-IsHandled env path (suc shifts) size =
    Admits-if IsSystemFault (env.alloc (size + 1)) _ _
      (take_link-IsHandled size _ (env.readlink path size)
        (read_link-IsHandled env path shifts (size * 4)))
      tt

pub read_file_name-IsHandled : (env : Env) (path : Text) → IsHandled (read_file_name env path)
unfolding read_file_name
read_file_name-IsHandled env path = read_link-IsHandled env path 27 1024

entry_of-IsHandled : (o : Option (Text × ℕ)) → IsHandled (entry_of o)
entry_of-IsHandled none = tt
entry_of-IsHandled (some e) = tt

pub read_ids-IsHandled :
    (env : Env) (option : ℕ) (info : ProcInfo) → IsHandled (read_ids env option info)
unfolding read_ids
read_ids-IsHandled env option info =
    Admits-if IsSystemFault (option == b'U' || option == b'u') _ _
      (Admits->>= IsSystemFault (entry_of (cached info.pw (env.getpwuid info.info.st_uid))) _
        (entry_of-IsHandled _) λ e e'. tt)
      (Admits->>= IsSystemFault (entry_of (cached info.gr (env.getgrgid info.info.st_gid))) _
        (entry_of-IsHandled _) λ e e'. tt)
