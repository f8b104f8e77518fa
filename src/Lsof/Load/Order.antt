-- ===== src/Lsof/Load/Order.antt =====
-- The order in which `lsof` lists the processes, for `bufferedRead` of src/LSOFReader.cpp.
use cphf.Map.Update.{update-update}
use cphf.Lsof.Load.{buffered_read-load}
use mathlib.Core.Logic.{∥∥₁_elim}
use mathlib.Core.List.{Perm, Permᴰ}
use mathlib.Core.Path.{subst}
use cphf.Base.{ℕ, ◌+◌, ◌≡◌, ◌≢◌, refl, ap, ◌∙◌, sym, List, [], ◌∷◌, ok, arith, All, Run}
use cphf.Base.Word.{u64, int_rank, int_rank-injective}
use cphf.Files.{ProcMap, new_proc_file}
use cphf.Lsof.{buffered_read}
use cphf.Lsof.Scan.{render}
use cphf.Lsof.Load.Fields.{
  Descriptor, txt, numbered, other, Entry, Listing, IsListing, IsInt, fields, load, counter_after,
  enter,
}

-- No process is listed with its text, which is numbered by what was listed before.
abbrev pub HasNoTxt : Listing → Type 0
HasNoTxt = All (λ e. All (λ d. d ≢ txt) e.2)

counter_after_same :
    (fds : List Descriptor) (counter : ℕ)
    → All (λ d. d ≢ txt) fds
    → counter_after fds counter ≡ counter
unfolding counter_after
counter_after_same [] counter h = refl
counter_after_same (txt ∷ fds) counter h = absurd (h.0 refl)
counter_after_same (numbered n ∷ fds) counter h = counter_after_same fds counter h.1
counter_after_same (other name ∷ fds) counter h = counter_after_same fds counter h.1

All-Perm : {A : Type 0} (P : A → Type 0) {l l' : List A} → Permᴰ l l' → All P l → All P l'
All-Perm P Permᴰ.nil h = tt
All-Perm P (Permᴰ.cons e d) h = (subst P e h.0, All-Perm P d h.1)
All-Perm P (Permᴰ.swap e e') h = (subst P e' h.1.0, (subst P e h.0, h.1.1))
All-Perm P (Permᴰ.trans d d') h = All-Perm P d' (All-Perm P d h)

-- Every process is listed once.
abbrev pub IsOnce : Listing → Type 0
IsOnce [] = Unit
IsOnce ((pid, pgid, fds) ∷ l) = All (λ e. e.0 ≢ pid) l × IsOnce l

IsListing-Perm : {l l' : Listing} → Permᴰ l l' → IsListing l → IsListing l'
IsListing-Perm Permᴰ.nil h = tt
IsListing-Perm (Permᴰ.cons {a} {b} {l₁} {l₂} e d) h =
    subst (λ x. IsListing (x ∷ l₂)) e (h.0, h.1, h.2, IsListing-Perm d h.3)
IsListing-Perm (Permᴰ.swap {a} {b} {a'} {b'} {l} e e') h =
    subst (λ x. IsListing (x ∷ b' ∷ l)) e'
      (subst (λ y. IsListing (b ∷ y ∷ l)) e (h.3.0, h.3.1, h.3.2, (h.0, h.1, h.2, h.3.3)))
IsListing-Perm (Permᴰ.trans d d') h = IsListing-Perm d' (IsListing-Perm d h)

IsOnce-Perm : {l l' : Listing} → Permᴰ l l' → IsOnce l → IsOnce l'
IsOnce-Perm Permᴰ.nil h = tt
IsOnce-Perm (Permᴰ.cons {a} {b} {l₁} {l₂} e d) h =
    subst (λ x. IsOnce (x ∷ l₂)) e (All-Perm (λ p. p.0 ≢ a.0) d h.0, IsOnce-Perm d h.1)
IsOnce-Perm (Permᴰ.swap {a} {b} {a'} {b'} {l} e e') h =
    subst (λ x. IsOnce (x ∷ b' ∷ l)) e'
      (subst (λ y. IsOnce (b ∷ y ∷ l)) e ((λ q. h.0.0 (sym q), h.1.0), (h.0.1, h.1.1)))
IsOnce-Perm (Permᴰ.trans d d') h = IsOnce-Perm d' (IsOnce-Perm d h)

module _ (txt_fd counter : ℕ) where
  abbrev put : Entry → ProcMap → ProcMap
  put e = enter txt_fd e counter

  load-put :
      (e : Entry) (l : Listing) (procs : ProcMap)
      → All (λ d. d ≢ txt) e.2
      → load txt_fd (e ∷ l) counter procs ≡ load txt_fd l counter (put e procs)
  unfolding load
  load-put e l procs h = ap (λ c. load txt_fd l c (put e procs)) (counter_after_same e.2 counter h)

  put-put :
      (a b : Entry) (procs : ProcMap)
      → IsInt a.0
      → IsInt b.0
      → a.0 ≢ b.0
      → put a (put b procs) ≡ put b (put a procs)
  put-put a b procs h k distinct =
      update-update int_rank a.0 b.0 _ _ new_proc_file procs
        λ ranks. distinct (int_rank-injective a.0 b.0 (omega arith) (omega arith) ranks)

  load-Perm :
      {l l' : Listing} (d : Permᴰ l l') (procs : ProcMap)
      → IsListing l
      → IsOnce l
      → HasNoTxt l
      → load txt_fd l counter procs ≡ load txt_fd l' counter procs
  load-Perm Permᴰ.nil procs h o n = refl
  load-Perm (Permᴰ.cons {a} {b} {l₁} {l₂} e d) procs h o n =
      subst (λ x. load txt_fd (a ∷ l₁) counter procs ≡ load txt_fd (x ∷ l₂) counter procs) e
        (load-put a l₁ procs n.0
          ∙ load-Perm d (put a procs) h.3 o.1 n.1
          ∙ sym (load-put a l₂ procs n.0))
  load-Perm (Permᴰ.swap {a} {b} {a'} {b'} {l} e e') procs h o n =
      let second = subst (λ y. All (λ d. d ≢ txt) y.2) e n.0 in
      let swapped =
        load-put a (b ∷ l) procs n.0
        ∙ load-put b l (put a procs) n.1.0
        ∙ ap (load txt_fd l counter) (put-put b a procs h.3.0 h.0 o.0.0)
        ∙ sym (load-put a l (put b procs) n.0)
        ∙ sym (load-put b (a ∷ l) procs n.1.0) in
      subst (λ x. load txt_fd (a ∷ b ∷ l) counter procs ≡ load txt_fd (x ∷ b' ∷ l) counter procs) e'
        (subst (λ y. load txt_fd (a ∷ b ∷ l) counter procs ≡ load txt_fd (b ∷ y ∷ l) counter procs)
          e swapped)
  load-Perm (Permᴰ.trans d d') procs h o n =
      load-Perm d procs h o n
      ∙ load-Perm d' procs (IsListing-Perm d h) (IsOnce-Perm d o)
          (All-Perm (λ e. All (λ d. d ≢ txt) e.2) d n)

Run_set : (m m' : Run ProcMap) → IsProp (m ≡ m')
Run_set = hlevel

-- Where `lsof` answers with a listing, of each process once and of none with its text, with numbers
-- that fit an `int` and other names that start with no digit and no sign, the order in which the
-- processes are listed makes no difference, whether the map holds them already or not.
pub buffered_read-Perm :
    (txt_fd : ℕ) (l l' : Listing) (procs : ProcMap)
    → Perm l l'
    → IsListing l
    → IsOnce l
    → HasNoTxt l
    → buffered_read txt_fd (render (fields l)) procs
      ≡ buffered_read txt_fd (render (fields l')) procs
buffered_read-Perm txt_fd l l' procs perm ints once no_txt = ∥∥₁_elim perm (Run_set _ _) λ d.
    buffered_read-load txt_fd l procs ints
    ∙ ap ok (load-Perm txt_fd (u64 (txt_fd + 1)) d procs ints once no_txt)
    ∙ sym (buffered_read-load txt_fd l' procs (IsListing-Perm d ints))
