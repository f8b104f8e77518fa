-- ===== src/Lsof/Load/Steps.antt =====
-- The fields of a listing one by one: the body of the loop of `bufferedRead` of
-- src/LSOFReader.cpp for each.
use cphf.Map.Update.{update, assign-insert-update}
use cphf.Text.Holds.{c_str_whole}
use cphf.Text.Space.{skip_space_stays}
use cphf.Lsof.Load.Fields.{
  Descriptor, txt, numbered, other, IsName, IsInt, IsDescriptor, descriptor_field,
}
use cphf.Common.Id
use cphf.Base.{ℕ, ◌+◌, ◌++◌, ◌≡◌, refl, false, [], ◌∷◌, some, ok, arith, All, sym}
use cphf.Base.Word.{u64, int_rank, sign_extend-int, u32-int}
use cphf.Text.{Text, codes, decimal, c_str, same, atoi, is_space, read_digits}
use cphf.Text.Numbers.{atoi-decimal, c_str-digits, decimal-IsDigits, IsDigits}
use cphf.Map.{find, assign, int_less}
use cphf.Map.Laws.{insert_finds}
use cphf.Files.{ProcFile, new_unlinked_file, new_proc_file, add_proc_attribute, add_file, file_key}
use cphf.Lsof.{Reading, read_field, read_fd, read_pid, descriptor, atoi, is_space}

-- What the line of a process does to it.
abbrev pub named : ℕ → ProcFile → ProcFile
named pid p = record p { pid = pid; attributes = p.attributes ++ (Id.pid, decimal pid) ∷ [] }

pub read_pid_step :
    (txt_fd pid : ℕ) (r : Reading)
    → IsInt pid
    → read_field txt_fd b'p' (record r { charbuff = some (decimal pid) })
      ≡ ok (record r {
        charbuff = some (decimal pid);
        pid = some pid;
        pf = some pid;
        procs = update int_rank pid (named pid) new_proc_file r.procs;
      })
unfolding read_field read_pid add_proc_attribute
read_pid_step txt_fd pid r h = rw (
  c_str-digits _ (decimal-IsDigits pid),
  atoi-decimal pid h,
  sign_extend-int pid h,
  u32-int pid h,
  insert_finds int_rank pid new_proc_file r.procs,
  sym (assign-insert-update int_rank pid (named pid) new_proc_file r.procs),
)

-- The file that a descriptor stands for, the key that it is put under, and the counter behind it.
abbrev pub fid_of : Descriptor → ℕ → ℕ
fid_of txt counter = counter
fid_of (numbered n) counter = n
fid_of (other name) counter = 0

abbrev pub next_counter : Descriptor → ℕ → ℕ
next_counter txt counter = u64 (counter + 1)
next_counter (numbered n) counter = counter
next_counter (other name) counter = counter

not_txt : (s : Text) → IsDigits s → same s (codes "txt") ≡ false
unfolding same
not_txt [] h = refl
not_txt (c ∷ s) h = ground arith

-- `atoi` of a text that starts with no number.
atoi-name : (name : Text) → IsName name → All (λ c. is_space c ≡ false) name → atoi name ≡ some 0
unfolding atoi
atoi-name [] h v = absurd h
atoi-name (c ∷ s) h v = rw (skip_space_stays c s v.0) (unfold read_digits in ground arith)

read_descriptor :
    (d : Descriptor) (counter : ℕ)
    → IsDescriptor d
    → descriptor (c_str (descriptor_field d).1) (c_str (descriptor_field d).1) counter
      ≡ ok (fid_of d counter, next_counter d counter)
unfolding descriptor descriptor_field
read_descriptor txt counter h = unfold c_str same in refl
read_descriptor (numbered n) counter h = rw (
  c_str-digits _ (decimal-IsDigits n),
  not_txt _ (decimal-IsDigits n),
  atoi-decimal n h,
  sign_extend-int n h,
)
read_descriptor (other []) counter h = absurd h.1
read_descriptor (other (c ∷ s)) counter h =
    rw (c_str_whole (c ∷ s) h.1.4, h.1.3, atoi-name (c ∷ s) h.1 h.0.2) refl

pub read_fd_step :
    (txt_fd pid : ℕ) (d : Descriptor) (r : Reading) (p : ProcFile)
    → IsDescriptor d
    → r.pid ≡ some pid
    → r.pf ≡ some pid
    → find int_less pid r.procs ≡ some p
    → let fid = fid_of d r.txt_fd_counter in
      let (id, v) = descriptor_field d in
      read_field txt_fd id (record r { charbuff = some v })
      ≡ ok (record r {
        charbuff = some v;
        ulf = some (pid, file_key fid);
        txt_fd_counter = next_counter d r.txt_fd_counter;
        procs = assign int_less pid (add_file fid (new_unlinked_file txt_fd pid fid) p) r.procs;
      })
unfolding read_field read_fd
read_fd_step txt_fd pid txt r p h e₁ e₂ e₃ =
    unfold descriptor_field in rw (read_descriptor txt r.txt_fd_counter h, e₁, e₂, e₃)
read_fd_step txt_fd pid (numbered n) r p h e₁ e₂ e₃ =
    unfold descriptor_field in rw (read_descriptor (numbered n) r.txt_fd_counter h, e₁, e₂, e₃)
read_fd_step txt_fd pid (other name) r p h e₁ e₂ e₃ =
    unfold descriptor_field in rw (read_descriptor (other name) r.txt_fd_counter h, e₁, e₂, e₃)
