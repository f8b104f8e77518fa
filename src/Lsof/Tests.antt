-- ===== src/Lsof/Tests.antt =====
-- Runs of the reader of `lsof` output.
use cphf.Lsof.Load.Order.{buffered_read-Perm}
use cphf.Base.{◌>>=◌, ◌≡◌, refl, List, [], ◌∷◌, ok, All, arith}
use cphf.Text.{Text, codes, decimal, c_str, skip_space, same, atoi}
use cphf.Common.Id
use cphf.Lsof.Pointers.{MayOverflow, buffered_read-MayOverflow}
use cphf.Base.{arith}
use cphf.Lsof.Load.Fields.{txt, numbered, other, IsDescriptor, IsListing, load, fields}
use cphf.Lsof.Load.Fields.{Listing}
use cphf.Map.{insert, find, assign}
use cphf.Files.{
  new_unlinked_file, new_proc_file, add_unlinked_attribute, add_proc_attribute, add_file,
}
use cphf.Lsof.Scan.{Field, IsField, render, replay, buffered_read-render, read_loop-fuel}
use cphf.Files.{ProcMap}
use mathlib.Core.List.Permᴰ
use cphf.Lsof.Load.{buffered_read-load}
use cphf.Lsof.{
  scan, scan_value, word, store_value, read_field, descriptor, buffered_read, read_loop,
  start_reading, u64,
}

abbrev sample : Text
sample = codes "p12\ng12\nf3\nftxt\nGx\np7\nf0\n"

abbrev sample_procs : ProcMap
sample_procs =
    (
      7,
      record {
        pid = 7;
        ppid = 0;
        attributes = (Id.pid, codes "7") ∷ [];
        ul_files =
            (0, record { path = codes "/proc/7/fd/0"; fid = 0; pid = 7; attributes = [] }) ∷ [];
      },
    )
    ∷ (
      12,
      record {
        pid = 12;
        ppid = 0;
        attributes = (Id.pid, codes "12") ∷ [];
        ul_files =
            (3, record { path = codes "/proc/12/fd/3"; fid = 3; pid = 12; attributes = [] })
            ∷ (
              1025,
              record {
                path = codes "/proc/12/exe";
                fid = 1025;
                pid = 12;
                attributes = (Id.flags, []) ∷ [];
              },
            )
            ∷ [];
      },
    )
    ∷ []

sample_read : buffered_read 1024 sample [] ≡ ok sample_procs
unfolding buffered_read scan scan_value word store_value skip_space read_field descriptor same c_str
    atoi insert find assign new_unlinked_file new_proc_file add_proc_attribute
    add_unlinked_attribute add_file decimal
sample_read = refl

-- A listing in which a process stands twice, once with its text and an open file, and which is put
-- into a map that holds the other one.
abbrev sample_listing : Listing
sample_listing =
    (12, 12, other (codes "cwd") ∷ numbered 3 ∷ txt ∷ [])
    ∷ (7, 12, [])
    ∷ (12, 12, numbered 4 ∷ [])
    ∷ []

sample_name-IsName : IsDescriptor (other (codes "cwd"))
unfolding same
sample_name-IsName = (
  (omega arith, omega arith, (refl, (refl, (refl, tt)))),
  (refl, ground arith, ground arith, refl, (ground arith, (ground arith, (ground arith, tt)))),
)

sample_listing-IsListing : IsListing sample_listing
sample_listing-IsListing = (
  omega arith,
  omega arith,
  (sample_name-IsName, (omega arith, (tt, tt))),
  (omega arith, omega arith, tt, (omega arith, omega arith, (omega arith, tt), tt)),
)

buffered_read-load_example :
    buffered_read 1024 (render (fields sample_listing)) sample_procs
    ≡ ok (load 1024 sample_listing (u64 1025) sample_procs)
buffered_read-load_example =
    buffered_read-load 1024 sample_listing sample_procs sample_listing-IsListing

abbrev sample_fields : List Field
sample_fields = (b'p', codes "12") ∷ (b'f', codes "3") ∷ []

sample_fields-IsField : All IsField sample_fields
sample_fields-IsField = (
  (refl, (omega arith, omega arith, (refl, (refl, tt)))),
  ((refl, (omega arith, omega arith, (refl, tt))), tt),
)

buffered_read-render_example :
    buffered_read 1024 (render sample_fields) []
    ≡ (replay 1024 sample_fields (start_reading 1024 []) >>= λ r. ok r.procs)
buffered_read-render_example = buffered_read-render 1024 sample_fields [] sample_fields-IsField

read_loop-fuel_example :
    read_loop 1024 30 (codes "p12\nf3\n") (start_reading 1024 [])
    ≡ read_loop 1024 9 (codes "p12\nf3\n") (start_reading 1024 [])
read_loop-fuel_example =
    read_loop-fuel 1024 30 9 (codes "p12\nf3\n") (start_reading 1024 []) (omega arith) (omega arith)

buffered_read-MayOverflow_example :
    MayOverflow (λ (m : ProcMap). Unit) (buffered_read 1024 (render sample_fields) [])
buffered_read-MayOverflow_example =
    buffered_read-MayOverflow 1024 (codes "12") ((b'f', codes "3") ∷ []) [] sample_fields-IsField
      (ground arith, tt)

-- Two processes with a file each, in both orders.
abbrev one_order : Listing
one_order = (12, 12, numbered 3 ∷ []) ∷ (7, 12, numbered 0 ∷ []) ∷ []

abbrev other_order : Listing
other_order = (7, 12, numbered 0 ∷ []) ∷ (12, 12, numbered 3 ∷ []) ∷ []

one_order-IsListing : IsListing one_order
one_order-IsListing =
    (omega arith, omega arith, (omega arith, tt), (omega arith, omega arith, (omega arith, tt), tt))

buffered_read-Perm_example :
    buffered_read 1024 (render (fields one_order)) sample_procs
    ≡ buffered_read 1024 (render (fields other_order)) sample_procs
buffered_read-Perm_example =
    buffered_read-Perm 1024 one_order other_order sample_procs ∣ Permᴰ.swap refl refl ∣₁
      one_order-IsListing ((ground arith, tt), (tt, tt))
      ((ground arith, tt), ((ground arith, tt), tt))
