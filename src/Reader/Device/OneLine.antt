-- ===== src/Reader/Device/OneLine.antt =====
-- The devices of src/CPHFReader.cpp: the names in the map are words, so that none has a newline.
use cphf.Base.{
  ℕ, zero, suc, ◌++◌, ◌==◌, ltb, length, drop, [], ◌∷◌, Option, none, some, Run, Option-cases,
  Bool-cases, inl, inr, Ensures, Ensures->>=, Ensures-ok, Ensures-if, arith, if◌then◌else◌,
}
use cphf.Text.{Text, codes, decimal, is_space, skip_space, contains}
use cphf.Text.Lines.{IsLine}
use cphf.Text.OneLine.{IsLine-append, IsLine-if, IsLine-drop, decimal-IsLine}
use cphf.Map.{insert, find}
use cphf.Map.All.{AllValues, insert-AllValues, find-AllValues}
use cphf.Env.{Env, Stat}
use cphf.Env.Lines.{OfOption}
use cphf.Reader.Device.{
  DeviceMap, Driver, MinorDevRange, ◌>>?◌, read_number, read_char, range_less, take_word, read_word,
  read_minors, take_label, take_name, read_driver, add_driver, build_step, build_loop, build_from,
  build_device_map, device_label, name_device, read_device,
}

take_word-IsLine : (s : Text) → IsLine (take_word s).0
unfolding take_word
take_word-IsLine [] = tt
take_word-IsLine (c ∷ s) = elim (Bool-cases (is_space c)) [
  | inl e ↦ rw e tt
  | inr e ↦ rw e (ground arith, take_word-IsLine s)
]

word_of-IsLine :
    (s : Text)
    → OfOption (λ w. IsLine w.0) (elim s [ [] ↦ none | c ∷ t ↦ some (take_word (c ∷ t)) ])
word_of-IsLine [] = tt
word_of-IsLine (c ∷ t) = take_word-IsLine (c ∷ t)

read_word-IsLine : (s : Text) → OfOption (λ w. IsLine w.0) (read_word s)
unfolding read_word
read_word-IsLine s = word_of-IsLine (skip_space s)

abbrev OneLineDriver : Option (Driver × Text) → Type 0
OneLineDriver = OfOption (λ d. IsLine d.0.label)

read_then :
    {A : Type 0} (P : Driver × Text → Type 0) (o : Option (A × Text))
    (f : A → Text → Option (Driver × Text))
    → ((a : A) (s : Text) → OfOption P (f a s))
    → OfOption P (o >>? f)
read_then P none f h = tt
read_then P (some (a, s)) f h = h a s

read_minors-IsLine : (label s : Text) → IsLine label → OneLineDriver (read_minors label s)
unfolding read_minors
read_minors-IsLine label s h =
    let P = λ (d : Driver × Text). IsLine d.0.label in
    read_then P (read_number s) _ λ major s₁. read_then P (read_number s₁) _ λ min s₂.
      read_then P (read_char s₂) _ λ range_check s₃.
        read_then P (if range_check == b'-' then read_number s₃ else some (min, s₃)) _
          λ max s₄. read_then P (read_word s₄) _ λ kind s₅. h

take_label-IsLine :
    (o : Option (Text × Text)) → OfOption (λ w. IsLine w.0) o → Ensures OneLineDriver (take_label o)
unfolding take_label
take_label-IsLine none h = tt
take_label-IsLine (some (device, s)) h =
    Ensures-if OneLineDriver (ltb (length device) 5) _ _ tt
      (read_minors-IsLine (drop 5 device) s (IsLine-drop 5 device h))

take_name-IsLine : (o : Option (Text × Text)) → Ensures OneLineDriver (take_name o)
unfolding take_name
take_name-IsLine none = tt
take_name-IsLine (some (name, s)) = take_label-IsLine (read_word s) (read_word-IsLine s)

abbrev NamesLines : DeviceMap → Type 0
NamesLines = AllValues (AllValues IsLine)

add_driver-NamesLines :
    (d : Driver) (m : DeviceMap) → IsLine d.label → NamesLines m → NamesLines (add_driver d m)
unfolding add_driver
add_driver-NamesLines d m h all = elim (Option-cases (find ltb d.major m)) [
  | inl e ↦
      rw (add_driver, e)
        (insert-AllValues (AllValues IsLine) ltb d.major (insert range_less d.minors d.label []) m
          (insert-AllValues IsLine range_less d.minors d.label [] h tt) all)
  | inr (min_map, e) ↦ rw (add_driver, e) all
]

build_step-NamesLines :
    (m : DeviceMap) (continue : Text → DeviceMap → Run DeviceMap)
    → ((s : Text) (m' : DeviceMap) → NamesLines m' → Ensures NamesLines (continue s m'))
    → (o : Option (Driver × Text)) → NamesLines m
    → OneLineDriver o
    → Ensures NamesLines (build_step m continue o)
unfolding build_step
build_step-NamesLines m continue ih none all h = all
build_step-NamesLines m continue ih (some (d, rest)) all h =
    ih rest (add_driver d m) (add_driver-NamesLines d m h all)

read_driver-IsLine : (s : Text) → Ensures OneLineDriver (read_driver s)
unfolding read_driver
read_driver-IsLine s = take_name-IsLine (read_word s)

build_loop-NamesLines :
    (fuel : ℕ) (s : Text) (m : DeviceMap) → NamesLines m → Ensures NamesLines (build_loop fuel s m)
unfolding build_loop
build_loop-NamesLines zero s m all = all
build_loop-NamesLines (suc fuel) s m all = Ensures->>= NamesLines (read_driver s) _ λ o e.
    build_step-NamesLines m _ (build_loop-NamesLines fuel) o all
      (Ensures-ok OneLineDriver (read_driver s) (read_driver-IsLine s) e)

build_from-NamesLines :
    (o : Option Text) (m : DeviceMap) → NamesLines m → Ensures NamesLines (build_from m o)
unfolding build_from
build_from-NamesLines none m all = all
build_from-NamesLines (some s) m all = build_loop-NamesLines (suc (length s)) s m all

device_label-IsLine : (label : Text) (minor : ℕ) → IsLine label → IsLine (device_label label minor)
unfolding device_label
device_label-IsLine label minor h =
    IsLine-if (contains label (codes "tty")) _ _
      (IsLine-append label (decimal minor) h (decimal-IsLine minor))
      (IsLine-if (contains label (codes "pts")) _ _
        (IsLine-append (label ++ codes "/") (decimal minor)
          (IsLine-append label (codes "/") h (omega arith, tt)) (decimal-IsLine minor))
        tt)

name_device-IsLine :
    (m : DeviceMap) (major minor : ℕ) → NamesLines m → IsLine (name_device m major minor)
unfolding name_device
name_device-IsLine m major minor all = elim (Option-cases (find ltb major m)) [
  | inl e ↦ rw (name_device, e) (omega arith, tt)
  | inr (minor_map, e) ↦
      let r : MinorDevRange = record { min = minor; max = minor } in
      let labels = find-AllValues (AllValues IsLine) ltb major m all e in
      elim (Option-cases (find range_less r minor_map)) [
        | inl e' ↦ rw (name_device, e, e') (omega arith, tt)
        | inr (label, e') ↦
            rw (name_device, e, e')
              (device_label-IsLine label minor
                (find-AllValues IsLine range_less r minor_map labels e'))
      ]
]

numbers-IsLine :
    (major minor : ℕ) (name : Text)
    → IsLine name
    → IsLine (decimal major ++ codes "," ++ decimal minor ++ codes "\t" ++ name)
numbers-IsLine major minor name h =
    IsLine-append (decimal major ++ codes "," ++ decimal minor ++ codes "\t") name
      (IsLine-append (decimal major ++ codes "," ++ decimal minor) (codes "\t")
        (IsLine-append (decimal major ++ codes ",") (decimal minor)
          (IsLine-append (decimal major) (codes ",") (decimal-IsLine major) (omega arith, tt))
          (decimal-IsLine minor))
        (omega arith, tt))
      h

pub read_device-IsLine : (env : Env) (info : Stat) → Ensures IsLine (read_device env info)
unfolding read_device
read_device-IsLine env info = Ensures->>= IsLine (build_device_map env []) _ λ m e.
    let m_lines =
      Ensures-ok NamesLines (build_device_map env [])
        (unfold build_device_map in
          build_from-NamesLines (env.open_file (codes "/proc/tty/drivers")) [] tt)
        e in
    numbers-IsLine _ _ (name_device m _ _) (name_device-IsLine m _ _ m_lines)
