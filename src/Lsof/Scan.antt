-- ===== src/Lsof/Scan.antt =====
-- The scanning calls and the rounds of the loop of `bufferedRead` in src/LSOFReader.cpp.
use cphf.Base.{
  ℕ, zero, suc, ◌<◌, ◌≤◌, ◌≡◌, refl, false, List, [], ◌∷◌, ◌++◌, some, Run, ok, ◌>>=◌, >>=-congr,
  length, length-append, arith, All, Bool-cases, inl, inr,
}
use cphf.Text.Space.{skip_space_stays, length-skip_space}
use cphf.Text.{Text, is_space, skip_space}
use cphf.Files.{ProcMap}
use cphf.Lsof.{
  Reading, Scanned, end_of_file, id_only, id_and_value, scan, scan_value, word, store_value,
  read_field, read_loop, read_round, start_reading, buffered_read,
}

-- An id and its value.
abbrev pub Field : Type 0
Field = ℕ × Text

abbrev pub IsVisible : Text → Type 0
IsVisible = All (λ c. is_space c ≡ false)

-- Text that the buffer holds and `%s` does not cut.
abbrev pub IsToken : Text → Type 0
IsToken v = (0 < length v) × (length v < 1024) × IsVisible v

abbrev pub IsField : Field → Type 0
IsField f = (is_space f.0 ≡ false) × IsToken f.1

-- A line for each field, as `lsof -F` writes it.
unfoldable pub render : List Field → Text
render [] = []
render ((id, v) ∷ fs) = id ∷ v ++ b'\n' ∷ render fs

-- The loop's body for each field in turn.
unfoldable pub replay : ℕ → List Field → Reading → Run Reading
replay txt_fd [] r = ok r
replay txt_fd ((id, v) ∷ fs) r =
    read_field txt_fd id (record r { charbuff = some v }) >>= λ r'. replay txt_fd fs r'

word-append : (v rest : Text) → IsVisible v → word (v ++ b'\n' ∷ rest) ≡ (v, b'\n' ∷ rest)
unfolding word
word-append [] rest h = refl
word-append (c ∷ v) rest h = rw (word-append v rest h.1, h.0)

skip_space-render : (fs : List Field) → All IsField fs → skip_space (b'\n' ∷ render fs) ≡ render fs
unfolding render skip_space
skip_space-render [] h = refl
skip_space-render ((id, v) ∷ fs) h = skip_space_stays id _ h.0.0

scan-field :
    (id : ℕ) (v : Text) (fs : List Field)
    → IsField (id, v)
    → All IsField fs
    → scan (id ∷ v ++ b'\n' ∷ render fs) ≡ id_and_value id v (render fs)
unfolding scan scan_value
scan-field id [] fs h hs = absurd (omega arith)
scan-field id (c ∷ v) fs h hs =
    rw
      (skip_space_stays c _ h.1.2.0, word-append (c ∷ v) (render fs) h.1.2, skip_space-render fs hs)

store_token :
    (v : Text) (r : Reading)
    → length v < 1024
    → store_value v r ≡ ok (record r { charbuff = some v })
unfolding store_value
store_token v r h = ground arith

-- A listing is read field by field, and nothing else comes of it.
read_loop-render :
    (txt_fd fuel : ℕ) (fs : List Field) (r : Reading)
    → All IsField fs
    → length (render fs) < fuel
    → read_loop txt_fd fuel (render fs) r ≡ replay txt_fd fs r
unfolding render replay read_loop
read_loop-render txt_fd zero fs r hs h = elim h [ ]
read_loop-render txt_fd (suc fuel) [] r hs h = unfold scan in refl
read_loop-render txt_fd (suc fuel) ((id, v) ∷ fs) r hs h =
    rw (scan-field id v fs hs.0 hs.1, store_token v r hs.0.1.1)
      (>>=-congr (read_field txt_fd id (record r { charbuff = some v })) _ _ λ r'.
        read_loop-render txt_fd fuel fs r' hs.1
          (omega (arith, length-append v (b'\n' ∷ render fs))))

-- A listing in the format of lsof -F, a line for each field, in which every value has 1 to 1023
-- bytes and no white space, is taken apart into exactly its fields: reading it is the body of the
-- loop for each field in turn.
pub buffered_read-render :
    (txt_fd : ℕ) (fs : List Field) (procs : ProcMap)
    → All IsField fs
    → buffered_read txt_fd (render fs) procs
      ≡ (replay txt_fd fs (start_reading txt_fd procs) >>= λ r. ok r.procs)
unfolding buffered_read
buffered_read-render txt_fd fs procs h =
    rw (read_loop-render txt_fd (suc (length (render fs))) fs _ h (omega arith))

-- Each scanning call takes a byte at least.
word_rest : (s : Text) → length (word s).1 ≤ length s
unfolding word
word_rest [] = omega arith
word_rest (c ∷ s) = elim (Bool-cases (is_space c)) [
  | inl e ↦ rw e (omega arith)
  | inr e ↦ rw e (omega (arith, word_rest s))
]

scan_value_shrinks :
    (c id : ℕ) (s v rest : Text)
    → scan_value c s ≡ id_and_value id v rest
    → length rest < suc (length s)
unfolding scan_value
scan_value_shrinks c id [] v rest h = cc
scan_value_shrinks c id (d ∷ s) v rest h =
    let w = word (d ∷ s) in ground (arith, word_rest (d ∷ s), length-skip_space (word (d ∷ s)).1)

scan_shrinks : (id : ℕ) (s v rest : Text) → scan s ≡ id_and_value id v rest → length rest < length s
unfolding scan
scan_shrinks id [] v rest h = cc
scan_shrinks id (c ∷ s) v rest h =
    omega (arith, scan_value_shrinks c id (skip_space s) v rest h, length-skip_space s)

-- A round depends on what the later rounds do on shorter texts only.
read_round-congr :
    (txt_fd n : ℕ) (t : Scanned) (r : Reading) (f g : Text → Reading → Run Reading)
    → ((id : ℕ) (v rest : Text) → t ≡ id_and_value id v rest → length rest < n)
    → (0 < n)
    → ((rest : Text) (r' : Reading) → length rest < n → f rest r' ≡ g rest r')
    → read_round txt_fd t r f ≡ read_round txt_fd t r g
unfolding read_round
read_round-congr txt_fd n end_of_file r f g short h same = refl
read_round-congr txt_fd n (id_only id) r f g short h same =
    >>=-congr (read_field txt_fd id r) _ _ λ r'. same [] r' h
read_round-congr txt_fd n (id_and_value id w rest) r f g short h same =
    >>=-congr (store_value w r) _ _
      λ r₁. >>=-congr (read_field txt_fd id r₁) _ _ λ r₂. same rest r₂ (short id w rest refl)

-- The fuel bounds the rounds and nothing else: once there is a unit for each byte and one more, any
-- further fuel is left over. So the loop ends at the end of the text.
pub read_loop-fuel :
    (txt_fd fuel more : ℕ) (s : Text) (r : Reading)
    → length s < fuel
    → length s < more
    → read_loop txt_fd fuel s r ≡ read_loop txt_fd more s r
unfolding read_loop
read_loop-fuel txt_fd zero more s r h k = elim h [ ]
read_loop-fuel txt_fd (suc fuel) zero s r h k = elim k [ ]
read_loop-fuel txt_fd (suc fuel) (suc more) [] r h k = unfold scan in refl
read_loop-fuel txt_fd (suc fuel) (suc more) (c ∷ s) r h k =
    read_round-congr txt_fd (suc (length s)) (scan (c ∷ s)) r _ _
      (λ id v rest. scan_shrinks id (c ∷ s) v rest) (omega arith)
      λ rest r' shorter. read_loop-fuel txt_fd fuel more rest r' (omega arith) (omega arith)
