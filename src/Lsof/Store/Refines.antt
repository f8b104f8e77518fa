-- ===== src/Lsof/Store/Refines.antt =====
-- `bufferedRead` of src/LSOFReader.cpp does to shared objects what it does to a map of processes.
use cphf.Base.{
  sym, ap, none, some, Run, ℕ, zero, suc, ◌≡◌, [], refl, ltb, length, ◌==◌, Matches, Matches->>=,
  Matches-if,
}
use mathlib.Core.Path.{subst}
use cphf.Text.{Text}
use cphf.Map.{Map}
use cphf.Files.{ProcMap}
use cphf.Lsof
use cphf.Lsof.{
  Reading, Scanned, end_of_file, id_only, id_and_value, scan, lsof_id_fd, lsof_id_flags,
  lsof_id_pid,
}
use cphf.Lsof.Store
use cphf.Lsof.Store.{Memory, Cursor}
use cphf.Lsof.Store.Owned.{IsOwned, view}
use cphf.Lsof.Store.Says.{Says}
use cphf.Lsof.Store.Steps.{read_fd-Says, read_flags-Says, read_pid-Says}

module _ (txt_fd : ℕ) where
  read_field-Says :
      (id : ℕ) (c : Cursor) (r : Reading)
      → Says c r
      → Matches Says (Store.read_field txt_fd id c) (Lsof.read_field txt_fd id r)
  unfolding Store.read_field Lsof.read_field
  read_field-Says id c r h =
      let S = Says in
      subst (λ r'. Matches Says (Store.read_field txt_fd id c) (Lsof.read_field txt_fd id r'))
        h.same
        (Matches-if S (id == lsof_id_fd) _ _ _ _
          (read_fd-Says c h.owner h.pf h.ulf h.owned h.process h.file txt_fd)
          (Matches-if S (id == lsof_id_flags) _ _ _ _
            (read_flags-Says c h.owner h.pf h.ulf h.owned h.process h.file)
            (Matches-if S (id == lsof_id_pid) _ _ _ _
              (read_pid-Says c h.owner h.pf h.ulf h.owned h.process h.file)
              (subst (λ r'. Says c r') (sym h.same) h))))

  store_value-Says :
      (w : Text) (c : Cursor) (r : Reading)
      → Says c r
      → Matches Says (Store.store_value w c) (Lsof.store_value w r)
  unfolding Store.store_value Lsof.store_value
  store_value-Says w c r h =
      Matches-if Says (ltb (length w) 1024) _ _ _ _
        (record {
          owner = h.owner;
          pf = h.pf;
          ulf = h.ulf;
          owned = h.owned;
          process = h.process;
          file = h.file;
          same = ap {A = Reading} {B = Reading} (λ r'. record r' { charbuff = some w }) h.same;
        })
        refl

  read_round-Says :
      (t : Scanned) (c : Cursor) (r : Reading) (f : Text → Cursor → Run Cursor)
      (g : Text → Reading → Run Reading)
      → ((s : Text) (c' : Cursor) (r' : Reading) → Says c' r' → Matches Says (f s c') (g s r'))
      → Says c r
      → Matches Says (Store.read_round txt_fd t c f) (Lsof.read_round txt_fd t r g)
  unfolding Store.read_round Lsof.read_round
  read_round-Says end_of_file c r f g ih h = h
  read_round-Says (id_only id) c r f g ih h =
      Matches->>= Says Says (Store.read_field txt_fd id c) (Lsof.read_field txt_fd id r) _ _
        (read_field-Says id c r h) (ih [])
  read_round-Says (id_and_value id w rest) c r f g ih h =
      Matches->>= Says Says (Store.store_value w c) (Lsof.store_value w r) _ _
        (store_value-Says w c r h)
        λ c₁ r₁ h₁.
          Matches->>= Says Says (Store.read_field txt_fd id c₁) (Lsof.read_field txt_fd id r₁) _ _
            (read_field-Says id c₁ r₁ h₁) (ih rest)

  read_loop-Says :
      (fuel : ℕ) (s : Text) (c : Cursor) (r : Reading)
      → Says c r
      → Matches Says (Store.read_loop txt_fd fuel s c) (Lsof.read_loop txt_fd fuel s r)
  unfolding Store.read_loop Lsof.read_loop
  read_loop-Says zero s c r h = h
  read_loop-Says (suc fuel) s c r h = read_round-Says (scan s) c r _ _ (read_loop-Says fuel) h

-- Memory in which every object has one owner, and which the map of processes describes.
abbrev pub Views : Memory × Map ℕ ℕ → ProcMap → Type 0
Views (mem, procs) m = (owner : ℕ → ℕ) × IsOwned owner mem procs × (view mem procs ≡ m)

-- Where every process stands in the map once, and every file in one process and once there, reading
-- any output into memory, through the two pointers that the loop has, does what reading it into the
-- map of the processes does, where pointers are keys and nothing is shared: both return or both end
-- in the same fault, and then the objects are those of the map, and each again has one owner.
pub buffered_read-Views :
    (txt_fd : ℕ) (s : Text) (owner : ℕ → ℕ) (mem : Memory) (procs : Map ℕ ℕ)
    → IsOwned owner mem procs
    → Matches Views
        (Store.buffered_read txt_fd s mem procs)
        (Lsof.buffered_read txt_fd s (view mem procs))
unfolding Store.buffered_read Lsof.buffered_read
buffered_read-Views txt_fd s owner mem procs owned =
    Matches->>= Says Views _ _ _ _
      (read_loop-Says txt_fd (suc (length s)) s (Store.start_reading txt_fd mem procs)
        (Lsof.start_reading txt_fd (view mem procs))
        (record {
          owner = owner;
          pf = none;
          ulf = none;
          owned = owned;
          process = tt;
          file = tt;
          same = refl;
        }))
      λ c r h. (h.owner, h.owned, ap (λ r'. r'.procs) h.same)
