-- ===== src/FileStat/Tests.antt =====
-- Runs of the reader of files.
use cphf.Base.{ℕ, ◌≡◌, refl, [], ◌∷◌, ok, arith}
use cphf.Text.{Text, codes, decimal, holds, c_str}
use cphf.Common.Id
use cphf.Map.{Map, insert}
use cphf.Env.Sample.{sample_env, sample_stat, sample_target}
use cphf.Reader.{format, read_perms}
use cphf.FileStat.{FileInfo, process_option, collect, add_reader, read_file_name}
use cphf.FileStat.Link.{read_file_name-target}
use cphf.FileStat.Order.{collect_order}

abbrev sample_file : FileInfo
sample_file = record { path = codes "/proc/7/fd/3"; stat = sample_stat }

abbrev sample_readers : Map ℕ Text
sample_readers = (Id.inode, codes "77") ∷ (Id.perms, codes "-rw-r--r--") ∷ []

collect_ip : collect sample_env (codes "ip") sample_file [] ≡ ok sample_readers
unfolding collect process_option add_reader insert format decimal read_perms
collect_ip = refl

collect_pip : collect sample_env (codes "pip") sample_file [] ≡ ok sample_readers
unfolding collect process_option add_reader insert format decimal read_perms
collect_pip = refl

same_options : (c : ℕ) → holds (codes "ip") c ≡ holds (codes "pip") c
unfolding holds
same_options c = ground arith

collect_order_example : sample_readers ≡ sample_readers
collect_order_example =
    collect_order sample_env sample_file (codes "ip") (codes "pip") same_options collect_ip
      collect_pip

read_file_name-target_example :
    read_file_name sample_env (codes "/proc/7/fd/3") ≡ ok (codes "/tmp/a (deleted)")
unfolding c_str
read_file_name-target_example =
    read_file_name-target sample_env (codes "/proc/7/fd/3") sample_target (λ size. refl)
      (λ size. refl) (omega arith)
