-- ===== src/Lsof/Store/Steps.antt =====
-- The cases of the loop of `bufferedRead` of src/LSOFReader.cpp, on shared objects and on the map of
-- processes.
use cphf.Base.{ℕ, ◌≡◌, ap, ◌∙◌, Option, none, some, Matches, Matches->>=, Matches-bind}
use cphf.Map.{insert, find, assign, int_less}
use cphf.Map.Mapped.{find-mapped}
use cphf.Map.Laws.{insert_keeps, insert_finds, or_else}
use cphf.Base.Word.{u32, sign_extend, int_rank}
use cphf.Text.{c_str, atoi}
use cphf.Files.{new_unlinked_file, add_file, file_key, number}
use cphf.Lsof
use cphf.Lsof.{
  Reading, pointer, set_value, descriptor, lsof_id_fd, lsof_id_flags, lsof_id_pid, empty_stream,
}
use cphf.Lsof.Store
use cphf.Lsof.Store.{Memory, Cursor, ProcObject, write, new_object}
use cphf.Common.Id
use cphf.Lsof.Store.Owned.{IsOwned, seen, view, write_same, write_other, below-other, entry}
use cphf.Lsof.Store.Processes.{
  with_process, with_object, view-with_process, with_process-IsOwned, with_object-IsOwned,
  view-with_object, files_stay,
}
use cphf.Lsof.Store.Opened.{with_file-IsOwned, view-with_file, view-with_flags}
use cphf.Lsof.Store.Says.{
  SameProcess, SameFile, LeadsTo, reading, Says, SameObject, pointer-SameProcess, pointer-SameFile,
  add_object_attribute-Same,
}

module _ (c : Cursor) (owner : ℕ → ℕ) (pf : Option ℕ) (ulf : Option (ℕ × ℕ))
    (owned : IsOwned owner c.memory c.procs) (process : SameProcess c.procs c.pf pf)
    (file : SameFile c.memory c.procs c.ulf ulf) where
  pub read_fd-Says :
      (txt_fd : ℕ)
      → Matches Says
          (Store.read_fd txt_fd empty_stream c)
          (Lsof.read_fd txt_fd empty_stream (reading c pf ulf))
  unfolding Store.read_fd Lsof.read_fd add_file
  read_fd-Says txt_fd = Matches-bind Says (set_value c.charbuff) _ _ λ buffer e₁.
      Matches-bind Says (descriptor (c_str buffer) (c_str buffer) c.txt_fd_counter) _ _ λ fid e₂.
        Matches-bind Says (set_value c.pid) _ _ λ pid e₃.
          Matches->>= (λ r k. find int_less k c.procs ≡ some r) Says (pointer c.pf) (pointer pf) _ _
            (pointer-SameProcess c.procs c.pf pf process)
            λ r k found.
              let mem = c.memory in
              let o = mem.proc_at r in
              let key = file_key fid.0 in
              let f = new_unlinked_file txt_fd pid fid.0 in
              let grown : ProcObject = record o {
                ul_files = insert int_less key mem.next o.ul_files;
              } in
              let there = insert_finds int_rank key mem.next o.ul_files in
              rw (there, find-mapped (seen mem) int_less k r c.procs found)
                (record {
                  owner = write mem.next r owner;
                  pf = pf;
                  ulf = some (k, key);
                  owned = with_file-IsOwned owner mem c.procs owned k r found key f;
                  process = process;
                  file = (
                    r,
                    found,
                    ap (λ q. find int_less key q.ul_files) (write_same r grown mem.proc_at) ∙ there,
                  );
                  same =
                      ap
                        (λ m. record {
                          charbuff = c.charbuff;
                          pid = c.pid;
                          pf = pf;
                          ulf = some (k, key);
                          txt_fd_counter = fid.1;
                          procs = m;
                        })
                        (view-with_file owner mem c.procs owned k r found key f);
                })

  pub read_flags-Says :
      Matches Says
        (Store.read_flags empty_stream c)
        (Lsof.read_flags empty_stream (reading c pf ulf))
  unfolding Store.read_flags Lsof.read_flags
  read_flags-Says =
      Matches->>= (LeadsTo c.memory c.procs) Says (pointer c.ulf) (pointer ulf) _ _
        (pointer-SameFile c.memory c.procs c.ulf ulf file)
        λ fr ks (r, found, there).
          let mem = c.memory in
          rw
            (
              find-mapped (seen mem) int_less ks.0 r c.procs found,
              find-mapped mem.file_at int_less ks.1 fr (mem.proc_at r).ul_files there,
            )
            (record {
              owner = owner;
              pf = pf;
              ulf = ulf;
              owned = owned;
              process = process;
              file = file;
              same =
                  ap (λ m. record (reading c pf ulf) { procs = m })
                    (view-with_flags owner mem c.procs owned ks.0 r found ks.1 fr _ there);
            })

  -- A pointer to a file leads where it did, once a process is put in and written to.
  SameFile-kept :
      (key r : ℕ) (found : find int_less key (insert int_less key c.memory.next c.procs) ≡ some r)
      (o : ProcObject)
      → o.ul_files ≡ ((with_process owner c.memory c.procs owned).proc_at r).ul_files
      → (fr : Option ℕ) (ks : Option (ℕ × ℕ)) → SameFile c.memory c.procs fr ks
      → SameFile
          (with_object owner
            (with_process owner c.memory c.procs owned)
            (insert int_less key c.memory.next c.procs)
            (with_process-IsOwned owner c.memory c.procs owned key)
            key
            r
            found
            o)
          (insert int_less key c.memory.next c.procs)
          fr
          ks
  SameFile-kept key r found o stays none none h = tt
  SameFile-kept key r found o stays none (some ks) h = absurd h
  SameFile-kept key r found o stays (some fr) none h = absurd h
  SameFile-kept key r found o stays (some fr) (some ks) (q, there, at) =
      let mem = c.memory in
      let mem₁ = with_process owner mem c.procs owned in
      let procs₁ = insert int_less key mem.next c.procs in
      let owned₁ = with_process-IsOwned owner mem c.procs owned key in
      let old = (entry owner mem c.procs owned ks.0 q there).0 in
      let files : (write r o mem₁.proc_at q).ul_files ≡ (mem.proc_at q).ul_files =
        files_stay owner mem₁ procs₁ owned₁ key r found o stays q
        ∙ ap (λ p. p.ul_files)
            (write_other mem.next q new_object mem.proc_at (below-other q mem.next old)) in
      (
        q,
        insert_keeps int_rank ks.0 key mem.next q c.procs there,
        ap (find int_less ks.1) files ∙ at,
      )

  pub read_pid-Says :
      Matches Says (Store.read_pid empty_stream c) (Lsof.read_pid empty_stream (reading c pf ulf))
  unfolding Store.read_pid Lsof.read_pid
  read_pid-Says = Matches-bind Says (set_value c.charbuff) _ _ λ buffer e₁.
      Matches-bind Says (number (atoi (c_str buffer))) _ _ λ n e₂.
        let mem = c.memory in
        let key = u32 (sign_extend n) in
        let mem₁ = with_process owner mem c.procs owned in
        let procs₁ = insert int_less key mem.next c.procs in
        let owned₁ = with_process-IsOwned owner mem c.procs owned key in
        let r = or_else (find int_less key c.procs) mem.next in
        let found : find int_less key procs₁ ≡ some r =
          insert_finds int_rank key mem.next c.procs in
        rw
          (
            found,
            ← view-with_process owner mem c.procs owned key,
            find-mapped (seen mem₁) int_less key r procs₁ found,
          )
          (Matches->>= (SameObject mem.file_at (mem₁.proc_at r)) Says _ _ _ _
            (add_object_attribute-Same Id.pid (c_str buffer) mem.file_at (mem₁.proc_at r))
            λ o p (is, stays). record {
              owner = owner;
              pf = some key;
              ulf = ulf;
              owned = with_object-IsOwned owner mem₁ procs₁ owned₁ key r found o stays;
              process = found;
              file = SameFile-kept key r found o stays c.ulf ulf file;
              same =
                  ap
                    (λ m. record {
                      charbuff = c.charbuff;
                      pid = some (sign_extend n);
                      pf = some key;
                      ulf = ulf;
                      txt_fd_counter = c.txt_fd_counter;
                      procs = m;
                    })
                    (view-with_object owner mem₁ procs₁ owned₁ key r found o
                      ∙ ap (λ q. assign int_less key q (view mem₁ procs₁)) is);
            })
