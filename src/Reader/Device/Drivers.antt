-- ===== src/Reader/Device/Drivers.antt =====
-- The map that `buildDeviceMap` of src/CPHFReader.cpp makes of a list of drivers.
use cphf.Base.{
  ℕ, ◌≤◌, ◌≡◌, refl, ◌∙◌, Bool, true, false, ◌&&◌, List, [], ◌∷◌, Option, none, some, ltb, leb,
  ◌==◌, if◌then◌else◌, arith, All, Bool-cases, inl, inr, Option-cases, ==_iff, ap, sym,
}
use mathlib.Core.Path.{subst}
use cphf.Text.{Text, codes}
use cphf.Map.{Map, insert, find}
use cphf.Map.Laws.{find-insert}
use cphf.Reader.Device.{
  MinorDevRange, range_less, DeviceMap, Driver, add_driver, device_label, name_device,
}

-- The drivers of a list one after the other, as the loop adds them.
unfoldable pub add_drivers : List Driver → DeviceMap → DeviceMap
add_drivers [] devices = devices
add_drivers (d ∷ ds) devices = add_drivers ds (add_driver d devices)

unfoldable pub driver_of : ℕ → List Driver → Option Driver
driver_of major [] = none
driver_of major (d ∷ ds) =
    let later = driver_of major ds in if d.major == major then some d else later

-- A device's name by one driver.
unfoldable pub named_by : Option Driver → ℕ → Text
named_by none minor = codes "?"
named_by (some d) minor =
    if leb d.minors.min minor && leb minor d.minors.max
    then device_label d.label minor
    else codes "?"

-- A range as the system writes it.
abbrev pub IsRange : Driver → Type 0
IsRange d = d.minors.min ≤ d.minors.max

abbrev entry : Driver → Map MinorDevRange Text
entry d = insert range_less d.minors d.label []

-- What the map holds for a major number: what was there, or the first driver's range.
abbrev held : Option (Map MinorDevRange Text) → Option Driver → Option (Map MinorDevRange Text)
held (some m) d = some m
held none none = none
held none (some d) = some (entry d)

unchanged : (o : Option (Map MinorDevRange Text)) → o ≡ held o none
unchanged none = refl
unchanged (some m) = refl

held_twice :
    (o : Option (Map MinorDevRange Text)) (b : Bool) (d : Driver) (later : Option Driver)
    → held (held o (if b then some d else none)) later ≡ held o (if b then some d else later)
held_twice (some m) b d later = refl
held_twice none true d later = refl
held_twice none false d later = refl

find-add_driver :
    (major : ℕ) (d : Driver) (devices : DeviceMap)
    → find ltb major (add_driver d devices)
      ≡ held (find ltb major devices) (if d.major == major then some d else none)
unfolding add_driver
find-add_driver major d devices = elim (Option-cases (find ltb d.major devices)) [
  | inr (m, e) ↦
      rw (add_driver, e)
        (elim (Bool-cases (d.major == major)) [
          | inl same ↦
              let k : d.major ≡ major = (==_iff d.major major).0 same in
              let f : find ltb major devices ≡ some m = ap (λ x. find ltb x devices) (sym k) ∙ e in
              rw f
          | inr other ↦ rw other (unchanged (find ltb major devices))
        ])
  | inl e ↦
      rw (add_driver, e)
        (elim (Bool-cases (d.major == major)) [
          | inl same ↦
              let k : d.major ≡ major = (==_iff d.major major).0 same in
              let f : find ltb major devices ≡ none = ap (λ x. find ltb x devices) (sym k) ∙ e in
              ground (arith, find-insert (λ x. x) major d.major (entry d) devices)
          | inr other ↦
              let g : (major == d.major) ≡ false = ground arith in
              find-insert (λ x. x) major d.major (entry d) devices
              ∙ rw (g, other) (unchanged (find ltb major devices))
        ])
]

find-add_drivers :
    (major : ℕ) (ds : List Driver) (devices : DeviceMap)
    → find ltb major (add_drivers ds devices) ≡ held (find ltb major devices) (driver_of major ds)
unfolding add_drivers driver_of
find-add_drivers major [] devices = unchanged (find ltb major devices)
find-add_drivers major (d ∷ ds) devices =
    rw (find-add_drivers major ds (add_driver d devices), find-add_driver major d devices)
      (held_twice (find ltb major devices) (d.major == major) d (driver_of major ds))

find_range :
    (minor : ℕ) (d : Driver)
    → IsRange d
    → find range_less (record { min = minor; max = minor }) (entry d)
      ≡ (if leb d.minors.min minor && leb minor d.minors.max then some d.label else none)
unfolding range_less insert find
find_range minor d h = ground arith

driver_of-IsRange :
    (major : ℕ) (ds : List Driver) (d : Driver)
    → All IsRange ds
    → driver_of major ds ≡ some d
    → IsRange d
unfolding driver_of
driver_of-IsRange major [] d h e = absurd (cc)
driver_of-IsRange major (c ∷ ds) d h e = elim (Bool-cases (c.major == major)) [
  | inl f ↦ let g : some c ≡ some d = rw f at e in let same : c ≡ d = cc in subst IsRange same h.0
  | inr f ↦ driver_of-IsRange major ds d h.1 (rw f at e)
]

-- In the map that a list of drivers makes, a device has the name by the first driver of its major
-- number alone: where its minor number lies outside that driver's range it shows as `?`, whatever
-- later drivers of the number there are.
pub name_device-known :
    (ds : List Driver) (major minor : ℕ)
    → All IsRange ds
    → name_device (add_drivers ds []) major minor ≡ named_by (driver_of major ds) minor
unfolding name_device named_by
name_device-known ds major minor h =
    rw (name_device, find-add_drivers major ds [])
      (elim (Option-cases (driver_of major ds)) [
        | inl e ↦ unfold find in rw e
        | inr (d, e) ↦
            unfold find in
            rw (e, find_range minor d (driver_of-IsRange major ds d h e))
              (elim (Bool-cases (leb d.minors.min minor && leb minor d.minors.max)) [
                | inl f ↦ rw f
                | inr f ↦ rw f
              ])
      ])
