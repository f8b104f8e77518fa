-- ===== src/Lsof/Own.antt =====
-- The numbers and the paths of the objects that `bufferedRead` of src/LSOFReader.cpp makes.
use cphf.Base.{
  ℕ, suc, ◌^◌, ◌<◌, ◌≡◌, refl, sym, ap, ◌∙◌, ◌++◌, Option, none, some, ok, Ensures, Ensures->>=,
  Ensures-ok, Ensures-if, All, length, ltb, ◌==◌, if◌then◌else◌, arith,
}
use mathlib.Core.Path.{subst}
use cphf.Base.Word.{u32, sign_extend, int_rank-injective}
use cphf.Text.{Text, codes, decimal, c_str, atoi}
use cphf.Common.Id
use cphf.Map.{insert, find, int_less}
use cphf.Map.All.{insert-All}
use cphf.Map.Entries.{assign-All, assign-insert-All}
use cphf.Files.WellFormed.{IsOwn, IsOwnFile}
use cphf.Files.{
  ProcFile, ProcMap, new_unlinked_file, new_proc_file, add_unlinked_attribute, add_proc_attribute,
  add_file, file_key, number,
}
use cphf.Lsof.{
  empty_stream, lsof_id_fd, lsof_id_flags, lsof_id_pid, Reading, read_field, read_fd, read_flags,
  read_pid, read_loop, pointer, set_value, descriptor, start_reading, buffered_read,
}
use cphf.Lsof.Invariant.{IsInvariant, read_loop-Ensures, pointed}

atoi-int : (s : Text) {n : ℕ} → atoi s ≡ some n → n < 2 ^ 32
unfolding atoi
atoi-int s e = ground arith

u32-sign_extend : (n : ℕ) → n < 2 ^ 32 → u32 (sign_extend n) ≡ n
u32-sign_extend n h = ground arith

module _ (txt_fd : ℕ) where
  -- The number that the loop keeps is that of the process that it points to.
  abbrev Linked : Reading → Type 0
  Linked r = (k : ℕ) → r.pf ≡ some k → (k < 2 ^ 32) × (r.pid ≡ some (sign_extend k))

  abbrev Owned : Reading → Type 0
  Owned r = All (IsOwn txt_fd) r.procs × Linked r

  pid_attribute :
      (value : Text) (p : ProcFile) {n : ℕ}
      → number (atoi value) ≡ ok n
      → Ensures
          (λ p'. (p'.pid ≡ n) × (p'.ul_files ≡ p.ul_files))
          (add_proc_attribute Id.pid value p)
  unfolding add_proc_attribute
  pid_attribute value p e =
      Ensures->>= (λ p'. (p'.pid ≡ _) × (p'.ul_files ≡ p.ul_files)) (number (atoi value)) _
        λ m e'. (cc, refl)

  numbered : (o : Option ℕ) {n : ℕ} → number o ≡ ok n → o ≡ some n
  numbered none e = cc
  numbered (some m) e = cc

  known : {A : Type 0} (o : Option A) {a b : A} → set_value o ≡ ok a → o ≡ some b → a ≡ b
  known none e e' = absurd (cc)
  known (some c) e e' = cc

  linked :
      (n key : ℕ)
      → key ≡ n
      → n < 2 ^ 32
      → (k : ℕ) → some key ≡ some k
      → (k < 2 ^ 32) × (some (sign_extend n) ≡ some (sign_extend k))
  linked n key same h k e =
      let e' : n ≡ k = cc in
      subst (λ x. (x < 2 ^ 32) × (some (sign_extend n) ≡ some (sign_extend x))) e' (h, refl)

  read_pid-Owned : (r : Reading) → Owned r → Ensures Owned (read_pid empty_stream r)
  unfolding read_pid new_proc_file
  read_pid-Owned r h = Ensures->>= Owned (set_value r.charbuff) _ λ buffer e₁.
      Ensures->>= Owned (number (atoi (c_str buffer))) _ λ n e₂.
        let key = u32 (sign_extend n) in
        let int = atoi-int (c_str buffer) (numbered _ e₂) in
        let same : key ≡ n = u32-sign_extend n int in
        let procs = insert int_less key new_proc_file r.procs in
        Ensures->>= Owned (pointer (find int_less key procs)) _ λ p e₃.
          Ensures->>= Owned (add_proc_attribute Id.pid (c_str buffer) p) _ λ p' e₄.
            let (pid, files) =
              Ensures-ok _ (add_proc_attribute Id.pid (c_str buffer) p)
                (pid_attribute (c_str buffer) p e₂) e₄ in
            (
              assign-insert-All (IsOwn txt_fd) key new_proc_file p p' r.procs (pointed _ e₃)
                  (λ fresh. (
                    omega arith,
                    pid ∙ sym same,
                    subst (All (IsOwnFile txt_fd key)) (sym (files ∙ ap (λ q. q.ul_files) fresh))
                        tt,
                  ))
                  (λ j rank own.
                    let here : j ≡ key = int_rank-injective j key own.0 (omega arith) rank in
                    (
                      own.0,
                      pid ∙ sym same ∙ sym here,
                      subst (All (IsOwnFile txt_fd j)) (sym files) own.2,
                    ))
                  h.0,
              linked n key same int,
            )

  new_file :
      (k fid pid : ℕ)
      → k < 2 ^ 32
      → pid ≡ sign_extend k
      → IsOwnFile txt_fd k (file_key fid, new_unlinked_file txt_fd pid fid)
  unfolding new_unlinked_file file_key
  new_file k fid pid int e = (
    fid,
    refl,
    refl,
    ap u32 e ∙ u32-sign_extend k int,
    ap
        (λ x.
          codes "/proc/"
          ++ decimal x
          ++ (if ltb txt_fd fid then codes "/exe" else codes "/fd/" ++ decimal fid))
        e,
  )

  read_fd-Owned : (r : Reading) → Owned r → Ensures Owned (read_fd txt_fd empty_stream r)
  unfolding read_fd add_file new_unlinked_file file_key
  read_fd-Owned r h = Ensures->>= Owned (set_value r.charbuff) _ λ buffer e₁.
      Ensures->>= Owned (descriptor (c_str buffer) (c_str buffer) r.txt_fd_counter) _ λ fid e₂.
        Ensures->>= Owned (set_value r.pid) _ λ pid e₃. Ensures->>= Owned (pointer r.pf) _ λ k e₄.
          Ensures->>= Owned (pointer (find int_less k r.procs)) _ λ p e₅.
            let (int, e) = h.1 k (pointed r.pf e₄) in
            let same : pid ≡ sign_extend k = known r.pid e₃ e in
            (
              assign-All (IsOwn txt_fd) k p _ r.procs (pointed _ e₅)
                  (λ j rank own.
                    let here : j ≡ k = int_rank-injective j k own.0 int rank in
                    (
                      own.0,
                      own.1,
                      insert-All (IsOwnFile txt_fd j) int_less (file_key fid.0) _ p.ul_files
                          (new_file j fid.0 pid own.0 (same ∙ ap sign_extend (sym here))) own.2,
                    ))
                  h.0,
              h.1,
            )

  read_flags-Owned : (r : Reading) → Owned r → Ensures Owned (read_flags empty_stream r)
  unfolding read_flags add_unlinked_attribute
  read_flags-Owned r h = Ensures->>= Owned (pointer r.ulf) _ λ ks e₁.
      Ensures->>= Owned (pointer (find int_less ks.0 r.procs)) _ λ p e₂.
        Ensures->>= Owned (pointer (find int_less ks.1 p.ul_files)) _ λ f e₃. (
          assign-All (IsOwn txt_fd) ks.0 p _ r.procs (pointed _ e₂)
              (λ j rank own. (
                own.0,
                own.1,
                assign-All (IsOwnFile txt_fd j) ks.1 f _ p.ul_files (pointed _ e₃) (λ i rank' o. o)
                    own.2,
              ))
              h.0,
          h.1,
        )

  Owned-IsInvariant : IsInvariant txt_fd Owned
  unfolding read_field
  Owned-IsInvariant = record {
    of_value = λ w r word h. h;
    of_field = λ id r h. Ensures-if Owned (id == lsof_id_fd) _ _ (read_fd-Owned r h) (
        Ensures-if Owned (id == lsof_id_flags) _ _ (read_flags-Owned r h)
          (Ensures-if Owned (id == lsof_id_pid) _ _ (read_pid-Owned r h) h));
  }

  -- Whatever the output is, the objects are under their own numbers, if they were before.
  pub buffered_read-IsOwn :
      (s : Text) (procs : ProcMap)
      → All (IsOwn txt_fd) procs
      → Ensures (All (IsOwn txt_fd)) (buffered_read txt_fd s procs)
  unfolding buffered_read
  buffered_read-IsOwn s procs h =
      Ensures->>= (All (IsOwn txt_fd))
        (read_loop txt_fd (suc (length s)) s (start_reading txt_fd procs)) _
        λ r e.
          (Ensures-ok Owned (read_loop txt_fd (suc (length s)) s (start_reading txt_fd procs))
            (read_loop-Ensures txt_fd Owned Owned-IsInvariant (suc (length s)) s
              (start_reading txt_fd procs) (h, λ k e'. absurd (cc)))
            e).0
