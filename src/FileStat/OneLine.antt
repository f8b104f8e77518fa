-- ===== src/FileStat/OneLine.antt =====
-- The values that `processOpiton` of src/FileStatReader.cpp sets have no newline, where what the
-- system gives has none.
use cphf.Base.{
  ◌==◌, bit_and, ◌+◌, ◌*◌, ℕ, zero, suc, ◌≢◌, Option, none, some, Ensures, Ensures->>=, Ensures-ok,
  Ensures-if, arith, Run, length,
}
use cphf.Text.{Text, codes}
use cphf.Text.Lines.{IsLine}
use cphf.Text.Holds.{c_str-All}
use cphf.Text.OneLine.{IsLine-if}
use cphf.Common.{Attribute}
use cphf.Env.{Env}
use cphf.Env.Lines.{GivesLines, OfOption}
use cphf.Reader.OneLine.{format-IsLine, read_time-IsLine, read_perms-IsLine}
use cphf.Reader.Device.{read_device}
use cphf.Reader.Device.OneLine.{read_device-IsLine}
use cphf.Reader.{s_ifmt, s_ifdir}
use cphf.FileStat.{FileInfo, process_option, take_link, read_link, read_file_name, read_mode}

take_link-IsLine :
    (size : ℕ) (again : Run Text) (o : Option Text)
    → Ensures IsLine again
    → OfOption IsLine o
    → Ensures IsLine (take_link size again o)
unfolding take_link
take_link-IsLine size again none ih h = tt
take_link-IsLine size again (some bytes) ih h =
    Ensures-if IsLine (length bytes == size) _ _ ih (c_str-All (λ c. c ≢ b'\n') bytes h)

module _ (env : Env) (gives : GivesLines env) where
  read_link-IsLine :
      (path : Text) (shifts size : ℕ) → Ensures IsLine (read_link env path shifts size)
  unfolding read_link
  read_link-IsLine path zero size = tt
  read_link-IsLine path (suc shifts) size =
      Ensures-if IsLine (env.alloc (size + 1)) _ _
        (take_link-IsLine size _ (env.readlink path size) (read_link-IsLine path shifts (size * 4))
          (gives.links path size))
        tt

  read_file_name-IsLine : (path : Text) → Ensures IsLine (read_file_name env path)
  unfolding read_file_name
  read_file_name-IsLine path = read_link-IsLine path 27 1024

  read_mode-IsLine : (mode : ℕ) → IsLine (read_mode mode)
  unfolding read_mode
  read_mode-IsLine mode =
      let kind = bit_and mode s_ifmt in
      IsLine-if (kind == 0o100000) (codes "Regular File") _ (ground arith) (
        IsLine-if (kind == s_ifdir) (codes "Directory") _ (ground arith) (
          IsLine-if (kind == 0o020000) (codes "Character Device") _ (ground arith) (
            IsLine-if (kind == 0o060000) (codes "Block Device") _ (ground arith) (
              IsLine-if (kind == 0o010000) (codes "FIFO (named pipe)") _ (ground arith) (
                IsLine-if (kind == 0o120000) (codes "Symbolic Link") _ (ground arith) (
                  IsLine-if (kind == 0o140000) (codes "Socket") (codes "UNKNOWN") (ground arith)
                    (ground arith)))))))

  pub process_option-IsLine :
      (c : ℕ) (info : FileInfo) → Ensures (λ a. IsLine a.1) (process_option env c info)
  unfolding process_option
  process_option-IsLine c info =
      let P = λ (a : Attribute). IsLine a.1 in
      Ensures-if P (c == b'n') _ _
        (Ensures->>= P (read_file_name env info.path) _
          λ v e. Ensures-ok IsLine _ (read_file_name-IsLine info.path) e)
        (Ensures-if P (c == b'i') _ _ (format-IsLine info.stat.st_ino) (
          Ensures-if P (c == b'u') _ _ (format-IsLine info.stat.st_uid) (
            Ensures-if P (c == b'U') _ _ tt (
              Ensures-if P (c == b'g') _ _ (format-IsLine info.stat.st_gid) (
                Ensures-if P (c == b'G') _ _ tt (
                  Ensures-if P (c == b'M') _ _ (read_mode-IsLine info.stat.st_mode) (
                    Ensures-if P (c == b'a') _ _ (read_time-IsLine env gives _ _) (
                      Ensures-if P (c == b'm') _ _ (read_time-IsLine env gives _ _) (
                        Ensures-if P (c == b'c') _ _ (read_time-IsLine env gives _ _) (
                          Ensures-if P (c == b'd') _ _
                            (Ensures->>= P (read_device env info.stat) _
                              λ v e. Ensures-ok IsLine _ (read_device-IsLine env info.stat) e)
                            (Ensures-if P (c == b's') _ _ (format-IsLine info.stat.st_size) (
                              Ensures-if P (c == b'p') _ _ (read_perms-IsLine info.stat.st_mode)
                                tt))))))))))))
