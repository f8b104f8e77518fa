-- ===== src/Lsof/Load/Replay.antt =====
-- Reading the fields of a listing, a process and a descriptor at a time.
use cphf.Map.Update.{update, find-update_self, assign-update, update_found}
use cphf.Lsof.Load.Fields.{
  Descriptor, txt, numbered, other, Listing, IsInt, IsDescriptor, IsListing, fields, load,
  load_files, counter_after, descriptor_field, enter, entered,
}
use cphf.Base.{
  ℕ, ◌≡◌, refl, ap, ◌∙◌, sym, List, [], ◌∷◌, ◌++◌, some, ok, ◌>>=◌, Run-cases, inl, inr, All, map,
}
use cphf.Base.Word.{int_rank, u32-int}
use cphf.Text.{decimal}
use cphf.Map.{find, assign, int_less}
use cphf.Map.Laws.{find-assign_self, assign-assign, assign_found, or_else}
use cphf.Files.{ProcFile, new_unlinked_file, add_file, file_key, new_proc_file}
use cphf.Lsof.{Reading, read_field}
use cphf.Lsof.Scan.{Field, replay}
use cphf.Lsof.Load.Steps.{read_pid_step, fid_of, next_counter, read_fd_step, named}

replay-append :
    (txt_fd : ℕ) (fs gs : List Field) (r : Reading)
    → replay txt_fd (fs ++ gs) r ≡ (replay txt_fd fs r >>= λ r'. replay txt_fd gs r')
unfolding replay
replay-append txt_fd [] gs r = refl
replay-append txt_fd ((id, v) ∷ fs) gs r =
    elim (Run-cases (read_field txt_fd id (record r { charbuff = some v }))) [
      | inl (r', e) ↦ rw e (replay-append txt_fd fs gs r')
      | inr (x, e) ↦ rw e
    ]

add_descriptor :
    (txt_fd pid counter : ℕ) (d : Descriptor) (fds : List Descriptor) (p : ProcFile)
    → IsDescriptor d
    → let fid = fid_of d counter in
      load_files txt_fd pid fds
        (next_counter d counter)
        (add_file fid (new_unlinked_file txt_fd pid fid) p).ul_files
      ≡ load_files txt_fd pid (d ∷ fds) counter p.ul_files
unfolding load_files add_file
add_descriptor txt_fd pid counter txt fds p h = refl
add_descriptor txt_fd pid counter (numbered n) fds p h = rw (u32-int n h)
add_descriptor txt_fd pid counter (other name) fds p h = refl

counter_after_cons :
    (d : Descriptor) (fds : List Descriptor) (counter : ℕ)
    → counter_after fds (next_counter d counter) ≡ counter_after (d ∷ fds) counter
unfolding counter_after
counter_after_cons txt fds counter = refl
counter_after_cons (numbered n) fds counter = refl
counter_after_cons (other name) fds counter = refl

-- The fields of one process, read while its entry is the current one.
replay-descriptors :
    (txt_fd pid : ℕ) (fds : List Descriptor) (r : Reading) (p : ProcFile)
    → All IsDescriptor fds
    → r.pid ≡ some pid
    → r.pf ≡ some pid
    → find int_less pid r.procs ≡ some p
    → (r' : Reading) × (replay txt_fd (map descriptor_field fds) r ≡ ok r')
      × (r'.txt_fd_counter ≡ counter_after fds r.txt_fd_counter)
      × (r'.procs
          ≡ assign int_less pid
              (record p { ul_files = load_files txt_fd pid fds r.txt_fd_counter p.ul_files })
              r.procs)
unfolding replay counter_after load_files add_file
replay-descriptors txt_fd pid [] r p hs e₁ e₂ e₃ =
    (r, refl, refl, sym (assign_found int_rank pid p r.procs e₃))
replay-descriptors txt_fd pid (d ∷ fds) r p hs e₁ e₂ e₃ =
    let fid = fid_of d r.txt_fd_counter in
    let (id, v) = descriptor_field d in
    let p₁ = add_file fid (new_unlinked_file txt_fd pid fid) p in
    let r₁ : Reading = record r {
      charbuff = some v;
      ulf = some (pid, file_key fid);
      txt_fd_counter = next_counter d r.txt_fd_counter;
      procs = assign int_less pid p₁ r.procs;
    } in
    let (r', f₁, f₂, f₃) =
      replay-descriptors txt_fd pid fds r₁ p₁ hs.1 e₁ e₂
        (find-assign_self int_rank pid p₁ p r.procs e₃) in
    (
      r',
      rw (read_fd_step txt_fd pid d r p hs.0 e₁ e₂ e₃) f₁,
      f₂ ∙ counter_after_cons d fds r.txt_fd_counter,
      f₃
          ∙ assign-assign int_rank pid _ p₁ r.procs
          ∙ ap (λ files. assign int_less pid (record p { ul_files = files }) r.procs)
              (add_descriptor txt_fd pid r.txt_fd_counter d fds p hs.0),
    )

-- The field of the group, of which nothing is kept.
read_group_step :
    (txt_fd pgid : ℕ) (r : Reading)
    → read_field txt_fd b'g' (record r { charbuff = some (decimal pgid) })
      ≡ ok (record r { charbuff = some (decimal pgid) })
unfolding read_field
read_group_step txt_fd pgid r = refl

-- The fields of one process.
replay-process :
    (txt_fd pid pgid : ℕ) (fds : List Descriptor) (r : Reading)
    → IsInt pid
    → All IsDescriptor fds
    → (r' : Reading) × (replay txt_fd
          ((b'p', decimal pid) ∷ (b'g', decimal pgid) ∷ map descriptor_field fds)
          r
        ≡ ok r')
      × (r'.txt_fd_counter ≡ counter_after fds r.txt_fd_counter)
      × (r'.procs ≡ enter txt_fd (pid, pgid, fds) r.txt_fd_counter r.procs)
unfolding replay
replay-process txt_fd pid pgid fds r h hs =
    let p = or_else (find int_less pid r.procs) new_proc_file in
    let r₁ : Reading = record r {
      charbuff = some (decimal pgid);
      pid = some pid;
      pf = some pid;
      procs = update int_rank pid (named pid) new_proc_file r.procs;
    } in
    let (r', f₁, f₂, f₃) =
      replay-descriptors txt_fd pid fds r₁ (named pid p) hs refl refl
        (find-update_self int_rank pid (named pid) new_proc_file r.procs) in
    (
      r',
      rw (read_pid_step txt_fd pid r h) (
          ap (λ m. m >>= replay txt_fd (map descriptor_field fds)) (read_group_step txt_fd pgid r₁)
          ∙ f₁),
      f₂,
      f₃
          ∙ assign-update int_rank pid (named pid) new_proc_file
              (entered txt_fd pid fds r.txt_fd_counter p) r.procs
          ∙ update_found int_rank pid (entered txt_fd pid fds r.txt_fd_counter) new_proc_file
              r.procs,
    )

pub replay-fields :
    (txt_fd : ℕ) (l : Listing) (r : Reading)
    → IsListing l
    → (r' : Reading) × (replay txt_fd (fields l) r ≡ ok r')
      × (r'.procs ≡ load txt_fd l r.txt_fd_counter r.procs)
unfolding load fields
replay-fields txt_fd [] r ints = unfold replay in (r, refl, refl)
replay-fields txt_fd ((pid, pgid, fds) ∷ l) r ints =
    let head = (b'p', decimal pid) ∷ (b'g', decimal pgid) ∷ map descriptor_field fds in
    let (r₁, e₁, e₂, e₃) = replay-process txt_fd pid pgid fds r ints.0 ints.2 in
    let (r', f₁, f₂) = replay-fields txt_fd l r₁ ints.3 in
    (r', replay-append txt_fd head (fields l) r ∙ rw e₁ f₁, rw (f₂, e₂, e₃))
