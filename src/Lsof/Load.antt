-- ===== src/Lsof/Load.antt =====
-- Loading a listing with `bufferedRead` of src/LSOFReader.cpp.
pub mod Fields
mod Steps
pub mod Replay
pub mod Owned
pub mod Finds
pub mod Order
use cphf.Lsof.Load.Fields.{
  Descriptor, txt, numbered, other, Listing, IsInt, IsDescriptor, IsListing, fields, load,
  load_files, counter_after, descriptor_field,
}
use cphf.Base.{
  ℕ, zero, suc, ◌+◌, ◌^◌, ◌<◌, ◌≤◌, ◌≡◌, ◌≢◌, refl, ap, ◌∙◌, sym, Bool, true, false, List, [], ◌∷◌,
  ◌++◌, Option, none, some, Run, ok, fault, ◌>>=◌, Run-cases, inl, inr, length, ltb, ◌==◌,
  if◌then◌else◌, arith, All, All-append, All-weaken, map,
}
use cphf.Base.Word.{u32, u64, sign_extend, int_rank, int_rank-injective, sign_extend-int, u32-int}
use cphf.Text.{Text, codes, decimal, c_str, atoi, is_space, is_digit, same}
use cphf.Text.Numbers.{
  atoi-decimal, c_str-digits, decimal-IsDigits, length-decimal, length-decimal_pos, IsDigits,
}
use cphf.Common.Id
use cphf.Map.{Map, insert, find, assign, int_less}
use cphf.Map.Laws.{
  find-insert, find-insert_fresh, find-assign_self, assign-assign, assign_found, assign-insert,
}
use cphf.Files.{
  UnlinkedFile, ProcFile, ProcMap, new_unlinked_file, new_proc_file, add_proc_attribute, add_file,
  file_key,
}
use cphf.Lsof.{Reading, read_field, read_fd, read_pid, descriptor, start_reading, buffered_read}
use cphf.Lsof.Scan.{Field, IsField, IsToken, IsVisible, render, replay, buffered_read-render}
use cphf.Lsof.Load.Replay.{replay-fields}

digits-visible : (c : ℕ) → is_digit c ≡ true → is_space c ≡ false
digits-visible c h = ground arith

decimal-IsToken : (n : ℕ) → IsInt n → IsToken (decimal n)
decimal-IsToken n h = (
  length-decimal_pos n,
  omega (arith, length-decimal 9 n (omega arith)),
  All-weaken (decimal n) digits-visible (decimal-IsDigits n),
)

descriptor_field-IsField : (d : Descriptor) → IsDescriptor d → IsField (descriptor_field d)
unfolding descriptor_field
descriptor_field-IsField txt h = (refl, (omega arith, omega arith, (refl, (refl, (refl, tt)))))
descriptor_field-IsField (numbered n) h = (refl, decimal-IsToken n h)
descriptor_field-IsField (other name) h = (refl, h.0)

descriptors-IsField :
    (fds : List Descriptor) → All IsDescriptor fds → All IsField (map descriptor_field fds)
descriptors-IsField [] h = tt
descriptors-IsField (d ∷ fds) h = (descriptor_field-IsField d h.0, descriptors-IsField fds h.1)

fields-IsField : (l : Listing) → IsListing l → All IsField (fields l)
unfolding fields
fields-IsField [] h = tt
fields-IsField ((pid, pgid, fds) ∷ l) h = (
  (refl, decimal-IsToken pid h.0),
  (
    (refl, decimal-IsToken pgid h.1),
    All-append IsField (map descriptor_field fds) (fields l) (descriptors-IsField fds h.2)
        (fields-IsField l h.3),
  ),
)

-- Where `lsof` lists processes, as often as it may be and whether the map holds them or not, its
-- numbers fit an `int` and other names start with no digit and no sign, reading its output adds to
-- the map exactly the processes listed: each gets its id, which is noted as an attribute each time,
-- and exactly the files listed, those without a number as the file 0, and keeps what it had.
pub buffered_read-load :
    (txt_fd : ℕ) (l : Listing) (procs : ProcMap)
    → IsListing l
    → buffered_read txt_fd (render (fields l)) procs ≡ ok (load txt_fd l (u64 (txt_fd + 1)) procs)
buffered_read-load txt_fd l procs ints =
    let (r', e, f) = replay-fields txt_fd l (start_reading txt_fd procs) ints in
    buffered_read-render txt_fd (fields l) procs (fields-IsField l ints) ∙ rw (e, f)
