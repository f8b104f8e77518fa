-- ===== src/Lsof/Pointers.antt =====
-- The pointers and variables of `bufferedRead` in src/LSOFReader.cpp.
use cphf.Base.{
  ℕ, ◌≡◌, ◌≢◌, refl, false, List, [], ◌∷◌, Option, none, some, Run, ok, fault, bad_number,
  null_pointer, indeterminate, buffer_overflow, out_of_range, bad_option, ◌>>=◌, All, Bool-cases,
  inl, inr, ◌==◌, arith,
}
use cphf.Base.Word.{u32, sign_extend, int_rank}
use cphf.Text.{Text, c_str, atoi, same, codes}
use cphf.Common.Id
use cphf.Map.{insert, find, int_less}
use cphf.Map.Laws.{insert_finds, find-assign_self, or_else}
use cphf.Files.{ProcFile, ProcMap, new_proc_file, add_proc_attribute, number}
use cphf.Lsof.{
  empty_stream, lsof_id_fd, lsof_id_flags, lsof_id_pid, Reading, read_field, read_fd, read_pid,
  descriptor, pointer, set_value, start_reading, buffered_read,
}
use cphf.Lsof.Scan.{Field, IsField, render, replay, buffered_read-render}

-- The variables of the first process and the buffer are set, and `pf` leads to an entry.
abbrev IsValid : Reading → Type 0
IsValid r =
    (pid : ℕ) × (k : ℕ) × (p : ProcFile) × (r.pid ≡ some pid)
    × (r.pf ≡ some k)
    × (find int_less k r.procs ≡ some p)

-- The one thing that may go wrong is a number that does not fit.
abbrev pub MayOverflow {ℓ} : {A : Type ℓ} → (A → Type 0) → Run A → Type 0
MayOverflow P (ok a) = P a
MayOverflow P (fault bad_number) = Unit
MayOverflow P (fault e) = ⊥

bound {ℓ κ} :
    {A : Type ℓ} {B : Type κ} (P : A → Type 0) (Q : B → Type 0) (m : Run A) (f : A → Run B)
    → MayOverflow P m
    → ((a : A) → P a → MayOverflow Q (f a))
    → MayOverflow Q (m >>= f)
bound P Q (ok a) f h k = k a h
bound P Q (fault bad_number) f h k = tt
bound P Q (fault null_pointer) f h k = elim h [ ]
bound P Q (fault indeterminate) f h k = elim h [ ]
bound P Q (fault buffer_overflow) f h k = elim h [ ]
bound P Q (fault out_of_range) f h k = elim h [ ]
bound P Q (fault (bad_option c)) f h k = elim h [ ]

set_then {ℓ κ} :
    {A : Type ℓ} {B : Type κ} (Q : B → Type 0) (o : Option A) (a : A) (f : A → Run B)
    → o ≡ some a
    → MayOverflow Q (f a)
    → MayOverflow Q (pointer o >>= f)
set_then Q o a f e h = rw e h

set_value_then {ℓ κ} :
    {A : Type ℓ} {B : Type κ} (Q : B → Type 0) (o : Option A) (a : A) (f : A → Run B)
    → o ≡ some a
    → MayOverflow Q (f a)
    → MayOverflow Q (set_value o >>= f)
set_value_then Q o a f e h = rw e h

abbrev Any {ℓ} : {A : Type ℓ} → A → Type 0
Any a = Unit

number_overflows : (o : Option ℕ) → MayOverflow Any (number o)
number_overflows none = tt
number_overflows (some n) = tt

pid_attribute : (value : Text) (p : ProcFile) → MayOverflow Any (add_proc_attribute Id.pid value p)
unfolding add_proc_attribute
pid_attribute value p =
    bound Any Any (number (atoi value)) _ (number_overflows (atoi value)) λ n t. tt

descriptor_overflows : (v : Text) (counter : ℕ) → MayOverflow Any (descriptor v v counter)
unfolding descriptor
descriptor_overflows v counter = elim (Bool-cases (same v (codes "txt"))) [
  | inl e ↦ rw e tt
  | inr e ↦ rw e (bound Any Any (number (atoi v)) _ (number_overflows (atoi v)) λ n t. tt)
]

read_pid-IsValid :
    (v : Text) (r : Reading)
    → MayOverflow IsValid (read_pid empty_stream (record r { charbuff = some v }))
unfolding read_pid
read_pid-IsValid v r =
    bound Any IsValid (number (atoi (c_str v))) _ (number_overflows (atoi (c_str v))) λ n t.
      let key = u32 (sign_extend n) in
      let procs = insert int_less key new_proc_file r.procs in
      let p = or_else (find int_less key r.procs) new_proc_file in
      let found : find int_less key procs ≡ some p =
        insert_finds int_rank key new_proc_file r.procs in
      set_then IsValid (find int_less key procs) p _ found (
        bound Any IsValid (add_proc_attribute Id.pid (c_str v) p) _ (pid_attribute (c_str v) p)
          λ p' t'.
            (sign_extend n, key, p', refl, refl, find-assign_self int_rank key p' p procs found))

module _ (txt_fd : ℕ) where
  read_fd-IsValid :
      (v : Text) (r : Reading)
      → IsValid r
      → MayOverflow IsValid (read_fd txt_fd empty_stream (record r { charbuff = some v }))
  unfolding read_fd
  read_fd-IsValid v r (pid, k, p, e₁, e₂, e₃) =
      bound Any IsValid (descriptor (c_str v) (c_str v) r.txt_fd_counter) _
        (descriptor_overflows (c_str v) r.txt_fd_counter)
        λ fid t. set_value_then IsValid r.pid pid _ e₁ (
          set_then IsValid r.pf k _ e₂ (
            set_then IsValid (find int_less k r.procs) p _ e₃
              (pid, k, _, e₁, e₂, find-assign_self int_rank k _ p r.procs e₃)))

  read_field-IsValid :
      (id : ℕ) (v : Text) (r : Reading)
      → id ≢ lsof_id_flags
      → IsValid r
      → MayOverflow IsValid (read_field txt_fd id (record r { charbuff = some v }))
  unfolding read_field
  read_field-IsValid id v r other h =
      let not_flags : (id == lsof_id_flags) ≡ false = ground arith in
      elim (Bool-cases (id == lsof_id_fd)) [
        | inl e ↦ rw e (read_fd-IsValid v r h)
        | inr e ↦
            rw (e, not_flags)
              (elim (Bool-cases (id == lsof_id_pid)) [
                | inl e' ↦ rw e' (read_pid-IsValid v r)
                | inr e' ↦ rw e' h
              ])
      ]

  replay-IsValid :
      (fs : List Field) (r : Reading)
      → All (λ f. f.0 ≢ lsof_id_flags) fs
      → IsValid r
      → MayOverflow IsValid (replay txt_fd fs r)
  unfolding replay
  replay-IsValid [] r h valid = valid
  replay-IsValid ((id, v) ∷ fs) r h valid =
      bound IsValid IsValid (read_field txt_fd id (record r { charbuff = some v })) _
        (read_field-IsValid id v r h.0 valid) λ r' valid'. replay-IsValid fs r' h.1 valid'

first_process :
    (txt_fd : ℕ) (v : Text) (fs : List Field) (procs : ProcMap)
    → All (λ f. f.0 ≢ lsof_id_flags) fs
    → MayOverflow IsValid (replay txt_fd ((lsof_id_pid, v) ∷ fs) (start_reading txt_fd procs))
unfolding replay read_field
first_process txt_fd v fs procs k =
    bound IsValid IsValid
      (read_pid empty_stream (record (start_reading txt_fd procs) { charbuff = some v })) _
      (read_pid-IsValid v (start_reading txt_fd procs))
      λ r valid. replay-IsValid txt_fd fs r k valid

-- Where a listing starts with a process, lists no file flags, as none are asked for, and has only
-- values of 1 to 1023 bytes without white space, which the unbounded %s of the source needs,
-- reading it follows no null or dangling pointer and reads no variable that is not set, whatever
-- the order of its fields: all that may go wrong then is a number that does not fit an int.
pub buffered_read-MayOverflow :
    (txt_fd : ℕ) (v : Text) (fs : List Field) (procs : ProcMap)
    → All IsField ((lsof_id_pid, v) ∷ fs)
    → All (λ f. f.0 ≢ lsof_id_flags) fs
    → MayOverflow
        (λ (m : ProcMap). Unit)
        (buffered_read txt_fd (render ((lsof_id_pid, v) ∷ fs)) procs)
buffered_read-MayOverflow txt_fd v fs procs h k =
    rw (buffered_read-render txt_fd ((lsof_id_pid, v) ∷ fs) procs h) (
      bound IsValid (λ (m : ProcMap). Unit)
        (replay txt_fd ((lsof_id_pid, v) ∷ fs) (start_reading txt_fd procs)) _
        (first_process txt_fd v fs procs k) λ r valid. tt)
