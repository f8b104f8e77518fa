-- ===== src/Proc/Coherent.antt =====
-- The entries of the user and the group that `readIDs` of src/ProcReader.cpp keeps, and the table of
-- states that `processOpiton` looks labels up in.
use cphf.Base.{
  ◌||◌, ℕ, ◌+◌, ◌%◌, ◌≡◌, refl, sym, ◌∙◌, ap, Bool-cases, inl, inr, [], none, some, ◌==◌, ok, ◌>>=◌,
  Matches, Matches-if, Matches->>=, Matches-refl, Option-cases, arith, Option, ◌⊎◌,
}
use mathlib.Core.Path.{subst}
use cphf.Text.{Text}
use cphf.Common.{Attribute}
use cphf.Common.Id
use cphf.Base.Word.{u64}
use cphf.Reader.{format, format_date_time, read_etime, read_perms}
use cphf.Map.{find, insert}
use cphf.Map.Laws.{find-insert, find_same_rank, or_else}
use cphf.Env.{Env}
use cphf.Reader.Device.{read_device}
use cphf.Proc.Stat.{ProcInfo}
use cphf.Proc.{
  read_cmd, read_start_time, format_range, inst_pointer, cached, ProcReading, ProcStates, procstate,
  char_less, state_label, read_ids, with_ids, process_option, cached,
}
use cphf.Map.Laws.{or_else, find_same_rank}

-- The tables give every state the same label.
abbrev pub SameLabels : ProcStates → ProcStates → Type 0
SameLabels states states' = (c : ℕ) → (state_label c states).0 ≡ (state_label c states').0

abbrev char_rank : ℕ → ℕ
char_rank c = (c + 128) % 256

state_label_value :
    (c : ℕ) (states : ProcStates) → (state_label c states).0 ≡ or_else (find char_less c states) []
unfolding state_label
state_label_value c states = elim (Option-cases (find char_less c states)) [
  | inl e ↦ rw (state_label, e) refl
  | inr (label, e) ↦ rw (state_label, e) refl
]

find-state_label :
    (c d : ℕ) (states : ProcStates)
    → or_else (find char_less c (insert char_less d [] states)) []
      ≡ or_else (find char_less c states) []
find-state_label c d states =
    ground (arith, find-insert char_rank c d [] states, find_same_rank char_rank c d states)

-- Looking a label up puts in only what is shown of a state that is missing.
pub state_label-SameLabels :
    (d : ℕ) (states : ProcStates) → SameLabels states (state_label d states).1
state_label-SameLabels d states c =
    state_label_value c states
    ∙ (elim (Option-cases (find char_less d states)) [
      | inl e ↦
          sym (find-state_label c d states)
          ∙ ap (λ (t : ProcStates). or_else (find char_less c t) [])
              (unfold state_label in rw (state_label, e) refl)
      | inr (label, e) ↦
          ap (λ (t : ProcStates). or_else (find char_less c t) [])
            (unfold state_label in rw (state_label, e) refl)
    ])
    ∙ sym (state_label_value c (state_label d states).1)

-- The record but for the entries of the user and the group.
abbrev pub base : ProcInfo → ProcInfo
base info = record info { pw = none; gr = none }

-- An entry that was looked up before is what looking it up gives.
abbrev pub IsCached : Option (Text × ℕ) → Option (Text × ℕ) → Type 0
IsCached kept found = (kept ≡ none) ⊎ (kept ≡ found)

-- The record is that of the process, but for entries that were looked up for it, and the table has
-- the labels that it had at the start.
abbrev pub IsCoherent : Env → ProcInfo → ProcReading → Type 0
IsCoherent env info r =
    (base r.info ≡ base info)
    × IsCached r.info.pw (env.getpwuid info.info.st_uid)
    × IsCached r.info.gr (env.getgrgid info.info.st_gid)
    × SameLabels r.states procstate

cached_found : (kept found : Option (Text × ℕ)) → IsCached kept found → cached kept found ≡ found
cached_found none found h = refl
cached_found (some e) found (inl h) = absurd (cc)
cached_found (some e) found (inr h) = h

-- The reading that nothing was looked up in.
abbrev pub started : ProcInfo → ProcReading
started info = record { info = base info; states = procstate }

-- The same attribute, and still the record of the process.
abbrev pub SameAttribute :
    Env → ProcInfo → Attribute × ProcReading → Attribute × ProcReading → Type 0
SameAttribute env info a a' = (a.0 ≡ a'.0) × IsCoherent env info a.1

module _ (env : Env) (info : ProcInfo) (r : ProcReading) (h : IsCoherent env info r) where
  abbrev Same : Attribute × ProcReading → Attribute × ProcReading → Type 0
  Same = SameAttribute env info

  user_entry : cached r.info.pw (env.getpwuid r.info.info.st_uid) ≡ env.getpwuid info.info.st_uid
  user_entry =
      ap (λ (i : ProcInfo). cached r.info.pw (env.getpwuid i.info.st_uid)) h.0
      ∙ cached_found r.info.pw _ h.1

  group_entry : cached r.info.gr (env.getgrgid r.info.info.st_gid) ≡ env.getgrgid info.info.st_gid
  group_entry =
      ap (λ (i : ProcInfo). cached r.info.gr (env.getgrgid i.info.st_gid)) h.0
      ∙ cached_found r.info.gr _ h.2

  with_ids-Same :
      (id option : ℕ)
      → Matches Same (with_ids env id option r) (with_ids env id option (started info))
  unfolding read_ids
  with_ids-Same id option = elim (Bool-cases (option == b'U' || option == b'u')) [
    | inl e ↦
        rw (e, user_entry)
          (elim (Option-cases (env.getpwuid info.info.st_uid)) [
            | inl e' ↦ rw e' refl
            | inr (entry, e') ↦ rw e' (refl, (h.0, inr (sym e'), h.2, h.3))
          ])
    | inr e ↦
        rw (e, group_entry)
          (elim (Option-cases (env.getgrgid info.info.st_gid)) [
            | inl e' ↦ rw e' refl
            | inr (entry, e') ↦ rw e' (refl, (h.0, h.1, inr (sym e'), h.3))
          ])
  ]

  keeps :
      (value : ProcInfo → Attribute)
      → Same (value (base r.info), r) (value (base info), started info)
  keeps value = (ap value h.0, h)

  state_Same :
      Same
        (
          (Id.pstate, (state_label r.info.state r.states).0),
          record r { states = (state_label r.info.state r.states).1 },
        )
        (
          (Id.pstate, (state_label info.state procstate).0),
          record { info = base info; states = (state_label info.state procstate).1 },
        )
  state_Same = (
    ap (λ (t : Text). (Id.pstate, t))
        (ap (λ (i : ProcInfo). (state_label i.state r.states).0) h.0 ∙ h.3 info.state),
    (h.0, h.1, h.2, λ c. sym (state_label-SameLabels r.info.state r.states c) ∙ h.3 c),
  )

  device_Same :
      Matches Same
        (read_device env r.info.info >>= λ value. ok ((Id.device, value), r))
        (read_device env info.info >>= λ value. ok ((Id.device, value), started info))
  device_Same =
      Matches->>= (λ (v v' : Text). v ≡ v') Same (read_device env r.info.info)
        (read_device env info.info) _ _
        (subst (λ x. Matches (λ (v v' : Text). v ≡ v') (read_device env r.info.info) x)
          (ap (λ (i : ProcInfo). read_device env i.info) h.0)
          (Matches-refl (λ (v v' : Text). v ≡ v') (read_device env r.info.info) (λ v. refl)))
        λ v v' e. (ap (λ (t : Text). (Id.device, t)) e, h)

  -- An option has the value that it has for the record of the process alone.
  pub process_option-Same :
      (c : ℕ) → Matches Same (process_option env c r) (process_option env c (started info))
  unfolding process_option
  process_option-Same c =
      let ids = λ (id : ℕ). with_ids-Same id c in
      Matches-if Same (c == b'c') _ _ _ _ (keeps (λ i. (Id.cmd, read_cmd env i.pid))) (
        Matches-if Same (c == b'P') _ _ _ _ (keeps (λ i. (Id.ppid, format i.ppid))) (
          Matches-if Same (c == b'n') _ _ _ _ (keeps (λ i. (Id.procgid, format i.procgid))) (
            Matches-if Same (c == b'U') _ _ _ _ (ids Id.loginname) (
              Matches-if Same (c == b'u') _ _ _ _ (ids Id.uid) (
                Matches-if Same (c == b'G') _ _ _ _ (ids Id.ugid_name) (
                  Matches-if Same (c == b'g') _ _ _ _ (ids Id.ugid) (
                    Matches-if Same (c == b'e') _ _ _ _
                      (keeps
                        (λ i. (Id.pstart_time, read_start_time env i.starttime format_date_time)))
                      (Matches-if Same (c == b'q') _ _ _ _
                        (keeps (λ i. (Id.pcpu_time, read_etime env (u64 (i.pstime + i.putime)))))
                        (Matches-if Same (c == b's') _ _ _ _ state_Same (
                          Matches-if Same (c == b'd') _ _ _ _ device_Same (
                            Matches-if Same (c == b'v') _ _ _ _
                              (keeps (λ i. (Id.pvms, format i.vms)))
                              (Matches-if Same (c == b'r') _ _ _ _
                                (keeps (λ i. (Id.prss, format i.rss)))
                                (Matches-if Same (c == b'T') _ _ _ _
                                  (keeps
                                    (λ i. (Id.text_region, format_range i.textbegin i.textend)))
                                  (Matches-if Same (c == b'D') _ _ _ _
                                    (keeps
                                      (λ i. (Id.data_region, format_range i.databegin i.dataend)))
                                    (Matches-if Same (c == b'S') _ _ _ _
                                      (keeps
                                        (λ i. (Id.stack_region, format_range i.stackbegin i.esp)))
                                      (Matches-if Same (c == b'i') _ _ _ _
                                        (keeps (λ i. (Id.epi, format_range i.epi inst_pointer)))
                                        (Matches-if Same (c == b'M') _ _ _ _
                                          (keeps (λ i. (Id.perms, read_perms i.info.st_mode)))
                                          refl)))))))))))))))))
