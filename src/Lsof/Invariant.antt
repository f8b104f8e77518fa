-- ===== src/Lsof/Invariant.antt =====
-- Rules for the loop of `bufferedRead` in src/LSOFReader.cpp: what holds of its variables, and of
-- every process, on any output.
use cphf.Base.{
  ℕ, zero, suc, ◌≡◌, [], Option, none, some, Run, ok, Ensures, Ensures->>=, Ensures-ok, length,
  Bool-cases, inl, inr, ltb, false, ◌==◌, Ensures-if,
}
use cphf.Base.Word.{u32, sign_extend}
use mathlib.Core.Path.{subst}
use cphf.Text.{Text, c_str, atoi, is_space}
use cphf.Lsof.Words.{IsWord, ScansWord, scan-ScansWord}
use cphf.Text.Holds.{c_str-All}
use cphf.Common.Id
use cphf.Map.{insert, find, assign, int_less}
use cphf.Map.All.{AllValues, insert-AllValues, assign-AllValues, find-AllValues}
use cphf.Files.{
  UnlinkedFile, ProcFile, ProcMap, new_unlinked_file, new_proc_file, add_unlinked_attribute,
  add_proc_attribute, add_file, number,
}
use cphf.Lsof.{
  empty_stream, lsof_id_fd, lsof_id_flags, lsof_id_pid, Reading, Scanned, end_of_file, id_only,
  id_and_value, scan, word, read_field, read_fd, read_flags, read_pid, read_round, read_loop,
  store_value, set_value, pointer, descriptor, start_reading, buffered_read,
}

-- A property of the loop's variables that its body keeps, and that storing a value keeps.
pub record IsInvariant (txt_fd : ℕ) (I : Reading → Type 0) : Type 0 where
  pub of_value : (w : Text) (r : Reading) → IsWord w → I r → I (record r { charbuff = some w })
  pub of_field : (id : ℕ) (r : Reading) → I r → Ensures I (read_field txt_fd id r)

module _ (txt_fd : ℕ) (I : Reading → Type 0) (K : IsInvariant txt_fd I) where
  store_value-Ensures : (w : Text) (r : Reading) → IsWord w → I r → Ensures I (store_value w r)
  unfolding store_value
  store_value-Ensures w r word h = elim (Bool-cases (ltb (length w) 1024)) [
    | inl e ↦ rw e (K.of_value w r word h)
    | inr e ↦ rw e tt
  ]

  read_round-Ensures :
      (t : Scanned) (r : Reading) (continue : Text → Reading → Run Reading)
      → ((s : Text) (r' : Reading) → I r' → Ensures I (continue s r'))
      → ScansWord t
      → I r
      → Ensures I (read_round txt_fd t r continue)
  unfolding read_round
  read_round-Ensures end_of_file r continue ih word h = h
  read_round-Ensures (id_only id) r continue ih word h =
      Ensures->>= I (read_field txt_fd id r) _
        λ r' e. ih [] r' (Ensures-ok I (read_field txt_fd id r) (K.of_field id r h) e)
  read_round-Ensures (id_and_value id w rest) r continue ih word h =
      Ensures->>= I (store_value w r) _ λ r₁ e₁. Ensures->>= I (read_field txt_fd id r₁) _ λ r₂ e₂.
        ih rest r₂ (
          Ensures-ok I (read_field txt_fd id r₁)
            (K.of_field id r₁ (Ensures-ok I (store_value w r) (store_value-Ensures w r word h) e₁))
            e₂)

  pub read_loop-Ensures :
      (fuel : ℕ) (s : Text) (r : Reading) → I r → Ensures I (read_loop txt_fd fuel s r)
  unfolding read_loop
  read_loop-Ensures zero s r h = h
  read_loop-Ensures (suc fuel) s r h =
      read_round-Ensures (scan s) r _ (read_loop-Ensures fuel) (scan-ScansWord s) h

-- A property of the map that the cases of the loop keep, each with the entry that it writes.
pub record IsUpdated (txt_fd : ℕ) (M : ProcMap → Type 0) : Type 0 where
  pub at_new : (k : ℕ) (m : ProcMap) → M m → M (insert int_less k new_proc_file m)
  pub at_pid :
      (k : ℕ) (value : Text) (p p' : ProcFile) (m : ProcMap)
      → IsWord value
      → find int_less k m ≡ some p
      → add_proc_attribute Id.pid value p ≡ ok p'
      → M m
      → M (assign int_less k p' m)
  pub at_file :
      (k fid pid : ℕ) (p : ProcFile) (m : ProcMap)
      → find int_less k m ≡ some p
      → M m
      → M (assign int_less k (add_file fid (new_unlinked_file txt_fd pid fid) p) m)
  pub at_flags :
      (k fk : ℕ) (p : ProcFile) (f : UnlinkedFile) (m : ProcMap)
      → find int_less k m ≡ some p
      → find int_less fk p.ul_files ≡ some f
      → M m
      → M (
          assign int_less k
            (record p {
              ul_files = assign int_less fk (add_unlinked_attribute Id.flags [] f) p.ul_files;
            })
            m)

pub pointed {ℓ} : {A : Type ℓ} (o : Option A) {a : A} → pointer o ≡ ok a → o ≡ some a
pointed none h = cc
pointed (some a) h = cc

module _ (txt_fd : ℕ) (M : ProcMap → Type 0) (K : IsUpdated txt_fd M) where
  abbrev HoldsWord : Option Text → Type 0
  HoldsWord none = Unit
  HoldsWord (some w) = IsWord w

  abbrev Updated : Reading → Type 0
  Updated r = HoldsWord r.charbuff × M r.procs

  set_value-HoldsWord : (o : Option Text) {w : Text} → HoldsWord o → set_value o ≡ ok w → IsWord w
  set_value-HoldsWord none h e = absurd (cc)
  set_value-HoldsWord (some v) h e = subst IsWord (cc) h

  read_pid-Updated : (r : Reading) → Updated r → Ensures Updated (read_pid empty_stream r)
  unfolding read_pid
  read_pid-Updated r h = Ensures->>= Updated (set_value r.charbuff) _ λ buffer e₁.
      Ensures->>= Updated (number (atoi (c_str buffer))) _ λ n e₂.
        let key = u32 (sign_extend n) in
        let procs = insert int_less key new_proc_file r.procs in
        Ensures->>= Updated (pointer (find int_less key procs)) _ λ p e₃.
          Ensures->>= Updated (add_proc_attribute Id.pid (c_str buffer) p) _ λ p' e₄. (
            h.0,
            K.at_pid key (c_str buffer) p p' procs
                (c_str-All (λ c. is_space c ≡ false) buffer (set_value-HoldsWord r.charbuff h.0 e₁))
                (pointed _ e₃) e₄ (K.at_new key r.procs h.1),
          )

  read_fd-Updated : (r : Reading) → Updated r → Ensures Updated (read_fd txt_fd empty_stream r)
  unfolding read_fd
  read_fd-Updated r h = Ensures->>= Updated (set_value r.charbuff) _ λ buffer e₁.
      Ensures->>= Updated (descriptor (c_str buffer) (c_str buffer) r.txt_fd_counter) _ λ fid e₂.
        Ensures->>= Updated (set_value r.pid) _ λ pid e₃.
          Ensures->>= Updated (pointer r.pf) _ λ k e₄.
            Ensures->>= Updated (pointer (find int_less k r.procs)) _
              λ p e₅. (h.0, K.at_file k fid.0 pid p r.procs (pointed _ e₅) h.1)

  read_flags-Updated : (r : Reading) → Updated r → Ensures Updated (read_flags empty_stream r)
  unfolding read_flags
  read_flags-Updated r h = Ensures->>= Updated (pointer r.ulf) _ λ ks e₁.
      Ensures->>= Updated (pointer (find int_less ks.0 r.procs)) _ λ p e₂.
        Ensures->>= Updated (pointer (find int_less ks.1 p.ul_files)) _
          λ f e₃. (h.0, K.at_flags ks.0 ks.1 p f r.procs (pointed _ e₂) (pointed _ e₃) h.1)

  read_field-Updated : (id : ℕ) (r : Reading) → Updated r → Ensures Updated (read_field txt_fd id r)
  unfolding read_field
  read_field-Updated id r h = Ensures-if Updated (id == lsof_id_fd) _ _ (read_fd-Updated r h) (
      Ensures-if Updated (id == lsof_id_flags) _ _ (read_flags-Updated r h)
        (Ensures-if Updated (id == lsof_id_pid) _ _ (read_pid-Updated r h) h))

  Updated-IsInvariant : IsInvariant txt_fd Updated
  Updated-IsInvariant = record {
    of_value = λ w r word h. (word, h.1);
    of_field = read_field-Updated;
  }

  -- Whatever the output is, the map has a property that the cases keep.
  pub buffered_read-Updated :
      (s : Text) (procs : ProcMap) → M procs → Ensures M (buffered_read txt_fd s procs)
  unfolding buffered_read
  buffered_read-Updated s procs h =
      Ensures->>= M (read_loop txt_fd (suc (length s)) s (start_reading txt_fd procs)) _ λ r e.
        (Ensures-ok Updated (read_loop txt_fd (suc (length s)) s (start_reading txt_fd procs))
          (read_loop-Ensures txt_fd Updated Updated-IsInvariant (suc (length s)) s
            (start_reading txt_fd procs) (tt, h))
          e).1

-- A property of processes that the cases of the loop keep.
pub record IsKept (txt_fd : ℕ) (P : ProcFile → Type 0) : Type 0 where
  pub of_new : P new_proc_file
  pub of_pid :
      (value : Text) (p : ProcFile)
      → IsWord value
      → P p
      → Ensures P (add_proc_attribute Id.pid value p)
  pub of_file :
      (fid pid : ℕ) (p : ProcFile) → P p → P (add_file fid (new_unlinked_file txt_fd pid fid) p)
  pub of_flags :
      (k : ℕ) (p : ProcFile) (f : UnlinkedFile)
      → P p
      → find int_less k p.ul_files ≡ some f
      → P (record p {
        ul_files = assign int_less k (add_unlinked_attribute Id.flags [] f) p.ul_files;
      })

module _ (txt_fd : ℕ) (P : ProcFile → Type 0) (K : IsKept txt_fd P) where
  AllValues-IsUpdated : IsUpdated txt_fd (AllValues P)
  AllValues-IsUpdated = record {
    at_new = λ k m h. insert-AllValues P int_less k new_proc_file m K.of_new h;
    at_pid = λ k value p p' m word e e' h.
        assign-AllValues P int_less k p' m
          (Ensures-ok P (add_proc_attribute Id.pid value p)
            (K.of_pid value p word (find-AllValues P int_less k m h e)) e')
          h;
    at_file = λ k fid pid p m e h.
        assign-AllValues P int_less k _ m (K.of_file fid pid p (find-AllValues P int_less k m h e))
          h;
    at_flags = λ k fk p f m e e' h.
        assign-AllValues P int_less k _ m (K.of_flags fk p f (find-AllValues P int_less k m h e) e')
          h;
  }

  -- Whatever the output is, every process in the map has a property that the cases keep.
  pub buffered_read-Kept :
      (s : Text) (procs : ProcMap)
      → AllValues P procs
      → Ensures (AllValues P) (buffered_read txt_fd s procs)
  buffered_read-Kept = buffered_read-Updated txt_fd (AllValues P) AllValues-IsUpdated
