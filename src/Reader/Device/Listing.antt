-- ===== src/Reader/Device/Listing.antt =====
-- The list of drivers as the system writes it, and `buildDeviceMap` of src/CPHFReader.cpp on it.
use cphf.Text.Space.{blanks, length-blanks}
use cphf.Base.{
  ℕ, zero, suc, ◌^◌, ◌<◌, ◌≤◌, ◌≡◌, refl, ap, ◌∙◌, false, List, [], ◌∷◌, ◌++◌, some, ltb, ◌==◌,
  if◌then◌else◌, arith, ok, length, length-append, All, Bool-cases, inl, inr, map, ==_iff, sym,
  replicate,
}
use cphf.Text.{Text, codes, decimal}
use cphf.Env.{Env}
use cphf.Reader.Device.{
  DeviceMap, Driver, read_minors, take_label, take_name, read_driver, build_step, build_loop,
  build_from, build_device_map, add_driver,
}
use cphf.Reader.Device.Drivers.{add_drivers}
use cphf.Reader.Device.Words.{
  IsWord, IsVisible, IsKind, kind-IsWord, read_minors_one, read_minors_range, read_word-append,
  read_word-space, read_word-blanks,
}

-- A line of the list: the driver's name, its device under /dev/, its numbers, and its kind, with
-- the blanks, beyond the first, that pad each column but the last.
pub record Line : Type 0 where
  pub name : Text
  pub name_pad : ℕ
  pub driver : Driver
  pub label_pad : ℕ
  pub major_pad : ℕ
  pub minors_pad : ℕ
  pub kind : Text

abbrev pub IsLine : Line → Type 0
IsLine l =
    IsWord l.name
    × IsVisible l.driver.label
    × (l.driver.major < 2 ^ 64)
    × (l.driver.minors.min < 2 ^ 64)
    × (l.driver.minors.max < 2 ^ 64)
    × IsKind l.kind

-- The minor numbers, as a range unless there is but one.
abbrev minors_text : ℕ → ℕ → Text → Text
minors_text min max rest =
    if min == max then decimal min ++ rest else decimal min ++ b'-' ∷ (decimal max ++ rest)

-- What follows the device: the numbers and the kind.
abbrev numbers_text : Line → Text → Text
numbers_text l rest = blanks l.label_pad (
    decimal l.driver.major
    ++ blanks l.major_pad (
        minors_text l.driver.minors.min l.driver.minors.max
          (blanks l.minors_pad (l.kind ++ b'\n' ∷ rest))))

unfoldable pub render_line : Line → Text → Text
render_line l rest =
    l.name ++ blanks l.name_pad (codes "/dev/" ++ (l.driver.label ++ numbers_text l rest))

unfoldable pub render_lines : List Line → Text
render_lines [] = []
render_lines (l ∷ ls) = render_line l (render_lines ls)

abbrev with_max : Driver → ℕ → Driver
with_max d m = record {
  label = d.label;
  major = d.major;
  minors = record { min = d.minors.min; max = m };
}

read_minors_line :
    (l : Line) (rest : Text)
    → IsLine l
    → read_minors l.driver.label (numbers_text l rest) ≡ some (l.driver, b'\n' ∷ rest)
read_minors_line l rest h =
    let d = l.driver in
    let ms = d.minors in
    elim (Bool-cases (ms.min == ms.max)) [
      | inl e ↦
          let same : ms.min ≡ ms.max = (==_iff ms.min ms.max).0 e in
          rw e (
            read_minors_one d.label l.kind rest l.label_pad l.major_pad l.minors_pad d.major ms.min
              h.2 h.3 h.5
            ∙ ap (λ (m : ℕ). some (with_max d m, b'\n' ∷ rest)) same)
      | inr e ↦ rw e (
          read_minors_range d.label l.kind rest l.label_pad l.major_pad l.minors_pad d.major ms.min
            ms.max h.2 h.3 h.4 (kind-IsWord l.kind h.5))
    ]

-- A line gives its driver, and leaves the lines behind it.
read_driver-render :
    (l : Line) (rest : Text)
    → IsLine l
    → read_driver (render_line l rest) ≡ ok (some (l.driver, b'\n' ∷ rest))
unfolding read_driver render_line take_name take_label
read_driver-render l rest h =
    let numbers = numbers_text l rest in
    let device = codes "/dev/" ++ l.driver.label in
    let long : ltb (length device) 5 ≡ false = ground arith in
    let numbered : take_label (some (device, numbers)) ≡ ok (some (l.driver, b'\n' ∷ rest)) =
      rw (take_label, long, read_minors_line l rest h) in
    let behind_name = replicate l.name_pad b' ' ++ (device ++ numbers) in
    let behind_label =
      replicate l.label_pad b' '
      ++ (decimal l.driver.major
          ++ blanks l.major_pad (
              minors_text l.driver.minors.min l.driver.minors.max
                (blanks l.minors_pad (l.kind ++ b'\n' ∷ rest)))) in
    ap take_name (read_word-append l.name b' ' behind_name h.0 refl)
    ∙ ap take_label (
        read_word-blanks l.name_pad (device ++ numbers)
        ∙ read_word-append device b' ' behind_label
            (omega arith, (refl, (refl, (refl, (refl, (refl, h.1)))))) refl)
    ∙ numbered

-- The end of a line is skipped before the next.
read_driver-newline : (s : Text) → read_driver (b'\n' ∷ s) ≡ read_driver s
unfolding read_driver
read_driver-newline s = ap take_name (read_word-space b'\n' s refl)

abbrev pub drivers_of : List Line → List Driver
drivers_of = map (λ l. l.driver)

build_loop-newline :
    (fuel : ℕ) (s : Text) (devices : DeviceMap)
    → build_loop (suc fuel) (b'\n' ∷ s) devices ≡ build_loop (suc fuel) s devices
unfolding build_loop
build_loop-newline fuel s devices = rw (read_driver-newline s)

behind : (xs ys : Text) → length ys ≤ length (xs ++ ys)
behind xs ys = omega (arith, length-append xs ys)

minors_text_longer : (min max : ℕ) (rest : Text) → length rest ≤ length (minors_text min max rest)
minors_text_longer min max rest = elim (Bool-cases (min == max)) [
  | inl e ↦ rw e (behind (decimal min) rest)
  | inr e ↦ rw e (
      omega (arith, behind (decimal min) (b'-' ∷ (decimal max ++ rest)), behind (decimal max) rest))
]

behind_blanks : (more : ℕ) (s : Text) → length s < length (blanks more s)
behind_blanks more s = omega (arith, length-blanks more s)

render_line_longer : (l : Line) (rest : Text) → length rest < length (render_line l rest)
unfolding render_line
render_line_longer l rest =
    let end = l.kind ++ b'\n' ∷ rest in
    let minors = minors_text l.driver.minors.min l.driver.minors.max (blanks l.minors_pad end) in
    let numbers = decimal l.driver.major ++ blanks l.major_pad minors in
    let device = codes "/dev/" ++ (l.driver.label ++ blanks l.label_pad numbers) in
    omega (
      arith,
      behind l.name (blanks l.name_pad device),
      behind_blanks l.name_pad device,
      behind l.driver.label (blanks l.label_pad numbers),
      behind_blanks l.label_pad numbers,
      behind (decimal l.driver.major) (blanks l.major_pad minors),
      behind_blanks l.major_pad minors,
      minors_text_longer l.driver.minors.min l.driver.minors.max (blanks l.minors_pad end),
      behind_blanks l.minors_pad end,
      behind l.kind (b'\n' ∷ rest),
    )

rest_of_list :
    (fuel : ℕ) (ls : List Line) (devices : DeviceMap)
    → All IsLine ls
    → length (render_lines ls) ≤ fuel
    → build_loop (suc fuel) (b'\n' ∷ render_lines ls) devices
      ≡ ok (add_drivers (drivers_of ls) devices)
unfolding build_loop render_lines add_drivers build_step
rest_of_list fuel [] devices h k = refl
rest_of_list zero (l ∷ ls) devices h k =
    absurd (omega (arith, render_line_longer l (render_lines ls)))
rest_of_list (suc fuel) (l ∷ ls) devices h k =
    rw
      (
        read_driver-newline (render_line l (render_lines ls)),
        read_driver-render l (render_lines ls) h.0,
      )
      (rest_of_list fuel ls (add_driver l.driver devices) h.1
        (omega (arith, render_line_longer l (render_lines ls))))

-- Where the system lists the drivers in its format, a line for each with its columns parted by one
-- or more blanks, as they are padded, the loop reads all of them to the end of the list: the map is
-- that of the drivers listed, in their order.
pub build_device_map-drivers :
    (env : Env) (ls : List Line)
    → All IsLine ls
    → env.open_file (codes "/proc/tty/drivers") ≡ some (render_lines ls)
    → build_device_map env [] ≡ ok (add_drivers (drivers_of ls) [])
unfolding build_device_map build_from
build_device_map-drivers env ls h e =
    rw (build_device_map, e)
      (sym (build_loop-newline (length (render_lines ls)) (render_lines ls) [])
        ∙ rest_of_list (length (render_lines ls)) ls [] h (omega arith))
