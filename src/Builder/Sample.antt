-- ===== src/Builder/Sample.antt =====
-- A run of the readers of `lsof` and of files on the small system, for the tests.
use cphf.Base.{◌≡◌, refl, List, [], ◌∷◌, ok, arith}
use cphf.Text.{codes, decimal, c_str, skip_space, same, atoi}
use cphf.Common.Id
use cphf.Map.{insert, find, assign, for_each}
use cphf.Env.Sample.{sample_env, sample_info}
use cphf.Files.{
  new_unlinked_file, new_proc_file, add_unlinked_attribute, add_proc_attribute, add_file,
  add_file_attributes,
}
use cphf.Reader.{format, read_perms}
use cphf.Lsof
use cphf.Lsof.{
  scan, scan_value, word, store_value, read_field, descriptor, buffered_read, wait_for,
  get_files_info,
}
use cphf.Lsof.{lsof_opts_default}
use cphf.Lsof.Scan.{render}
use cphf.Lsof.Load.Fields.{Listing, numbered, IsListing, fields, descriptor_field}
use cphf.Builder.Found.{Lists}
use cphf.FileStat
use cphf.FileStat.{
  form_path, read_file_stat_attributes, fill_file, collect, process_option, add_reader, run_readers,
}
use cphf.Proc.{procstate}
use cphf.Builder.{
  World, DataDigger, initial, dig, build, init_txt_fd, cphf_reader_lsof, cphf_reader_filestat,
}

abbrev pub found_world : World
found_world = record {
  flags = Lsof.create_attrib_map [];
  procs =
      (
        7,
        record {
          pid = 7;
          ppid = 0;
          attributes = (Id.pid, codes "7") ∷ [];
          ul_files =
              (3, record { path = codes "/proc/7/fd/3"; fid = 3; pid = 7; attributes = [] }) ∷ [];
        },
      )
      ∷ [];
  states = procstate;
  lines = [];
}

abbrev pub filled_world : World
filled_world = record {
  flags = FileStat.create_attrib_map (Lsof.create_attrib_map []);
  procs =
      (
        7,
        record {
          pid = 7;
          ppid = 0;
          attributes = (Id.pid, codes "7") ∷ [];
          ul_files =
              (
                3,
                record {
                  path = codes "/proc/7/fd/3";
                  fid = 3;
                  pid = 7;
                  attributes = (Id.inode, codes "77") ∷ (Id.perms, codes "-rw-r--r--") ∷ [];
                },
              )
              ∷ [];
        },
      )
      ∷ [];
  states = procstate;
  lines = [];
}

dig_lsof : dig sample_env sample_info (cphf_reader_lsof, codes "pfg") initial ≡ ok found_world
unfolding dig init_txt_fd Lsof.read wait_for buffered_read scan scan_value word store_value
    skip_space read_field descriptor same c_str atoi insert find assign new_unlinked_file
    new_proc_file add_proc_attribute add_file decimal
dig_lsof = refl

-- Once more: the same process and file are listed again.
abbrev pub again_world : World
again_world = record {
  flags = Lsof.create_attrib_map (Lsof.create_attrib_map []);
  procs =
      (
        7,
        record {
          pid = 7;
          ppid = 0;
          attributes = (Id.pid, codes "7") ∷ (Id.pid, codes "7") ∷ [];
          ul_files =
              (3, record { path = codes "/proc/7/fd/3"; fid = 3; pid = 7; attributes = [] }) ∷ [];
        },
      )
      ∷ [];
  states = procstate;
  lines = [];
}

dig_again : dig sample_env sample_info (cphf_reader_lsof, codes "pfg") found_world ≡ ok again_world
unfolding dig init_txt_fd Lsof.read wait_for buffered_read scan scan_value word store_value
    skip_space read_field descriptor same c_str atoi insert find assign new_unlinked_file
    new_proc_file add_proc_attribute add_file decimal
dig_again = refl

pub build_again :
    build sample_env sample_info ((cphf_reader_lsof, codes "pfg") ∷ []) found_world ≡ ok again_world
unfolding build
build_again = rw dig_again

dig_files :
    dig sample_env sample_info (cphf_reader_filestat, codes "pi") found_world ≡ ok filled_world
unfolding dig init_txt_fd FileStat.read read_file_stat_attributes for_each add_file_attributes
    form_path fill_file collect process_option add_reader run_readers insert find assign
    add_unlinked_attribute format read_perms decimal
dig_files = refl

abbrev pub sample_diggers : List DataDigger
sample_diggers = (cphf_reader_lsof, codes "pfg") ∷ (cphf_reader_filestat, codes "pi") ∷ []

pub build_sample : build sample_env sample_info sample_diggers initial ≡ ok filled_world
unfolding build
build_sample = rw (dig_lsof, dig_files)

-- What `lsof` answers, as a listing.
abbrev pub small_listing : Listing
small_listing = (7, 7, numbered 3 ∷ []) ∷ []

pub small_listing-IsListing : IsListing small_listing
small_listing-IsListing = (omega arith, omega arith, (omega arith, tt), tt)

pub small_listing-Lists : Lists sample_env lsof_opts_default small_listing
unfolding render fields descriptor_field decimal
small_listing-Lists = refl
