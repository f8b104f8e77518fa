-- ===== src/Files.antt =====
-- src/CPHFFile.h, src/UnlinkedFile.{h,cpp} and src/ProcFile.{h,cpp}: the objects that the readers
-- fill and the printer shows.
pub mod Laws
pub mod Grows
pub mod Keeps
pub mod WellFormed
use cphf.Base.{
  ℕ, Bool, List, [], ◌∷◌, ◌++◌, Option, none, some, ltb, ◌==◌, if◌then◌else◌, Run, ok, fault, Fault,
  null_pointer, bad_number, out_of_range, ◌>>=◌,
}
use cphf.Base.Word.{u32}
use cphf.Text.{Text, codes, decimal, atoi}
use cphf.Common.{Attribute, AttributeFlags}
use cphf.Common.Id
use cphf.Map.{Map, insert, find_hash, values, for_each, int_less}

pub record UnlinkedFile : Type 0 where
  pub path : Text
  pub fid : ℕ
  pub pid : ℕ
  pub attributes : List Attribute

-- The members for parents and children are not in use. `parentProc` is never set.
pub record ProcFile : Type 0 where
  pub pid : ℕ
  pub ppid : ℕ
  pub attributes : List Attribute
  pub ul_files : Map ℕ UnlinkedFile

-- What a `CPHFFile` pointer may point to.
pub data CphfFile : Type 0 where
  proc_file : ProcFile → CphfFile
  unlinked_file : UnlinkedFile → CphfFile

-- `std::map<int, cphf_file_ptr>`. Only `ProcFile` objects are put in, so that each cast of an entry
-- gives the entry.
abbrev pub ProcMap : Type 0
ProcMap = Map ℕ ProcFile

-- The constructor. `txt_fd` is `ULF_TXT_FD`; `pid` and `fid` have 64 bits, the members 32.
unfoldable pub new_unlinked_file : ℕ → ℕ → ℕ → UnlinkedFile
new_unlinked_file txt_fd pid fid = record {
  path =
      codes "/proc/"
      ++ decimal pid
      ++ (if ltb txt_fd fid then codes "/exe" else codes "/fd/" ++ decimal fid);
  fid = u32 fid;
  pid = u32 pid;
  attributes = [];
}

unfoldable pub new_proc_file : ProcFile
new_proc_file = record { pid = 0; ppid = 0; attributes = []; ul_files = [] }

unfoldable pub add_unlinked_attribute : ℕ → Text → UnlinkedFile → UnlinkedFile
add_unlinked_attribute id value f = record f {
  attributes =
      if id == Id.filename then (id, value) ∷ f.attributes else f.attributes ++ (id, value) ∷ [];
}

-- `atoi` is undefined where the number does not fit.
abbrev pub number : Option ℕ → Run ℕ
number none = fault bad_number
number (some n) = ok n

unfoldable pub add_proc_attribute : ℕ → Text → ProcFile → Run ProcFile
add_proc_attribute id value p =
    if id == Id.pid
    then (number (atoi value) >>= λ n.
        ok (record p { pid = n; attributes = p.attributes ++ (id, value) ∷ [] }))
    else if id == Id.cmd
    then ok (record p { attributes = (id, value) ∷ p.attributes })
    else ok (record p { attributes = p.attributes ++ (id, value) ∷ [] })

-- The key is cut to an `unsigned int`, and taken for an `int`. The pointer that `addFile` returns
-- leads to the entry of that key.
unfoldable pub file_key : ℕ → ℕ
file_key fd = u32 fd

unfoldable pub add_file : ℕ → UnlinkedFile → ProcFile → ProcFile
unfolding file_key
add_file fd ulf p = record p { ul_files = insert int_less (file_key fd) ulf p.ul_files }

unfoldable pub add_file_attributes :
    (ℕ → ℕ → UnlinkedFile → Run UnlinkedFile) → ProcFile → Run ProcFile
unfolding for_each
add_file_attributes func p = do
  files ← for_each (λ fid ulf. func fid p.pid ulf) p.ul_files
  ok (record p { ul_files = files })

add_all : List UnlinkedFile → List CphfFile → List CphfFile
add_all [] built_list = built_list
add_all (f ∷ fs) built_list = add_all fs (built_list ++ unlinked_file f ∷ [])

unfoldable pub flatten : ProcFile → List CphfFile → List CphfFile
unfolding add_all
flatten p built_list = add_all (values p.ul_files) built_list

-- The loop of `do_printAttributes`, the same in both classes: what the printer writes for each
-- attribute in turn. The call of `at` throws where an id has no label.
unfoldable pub print_attributes : AttributeFlags → (Text → Text → Text) → List Attribute → Run Text
print_attributes flags pretty_printer [] = ok []
print_attributes flags pretty_printer ((id, value) ∷ rest) = elim (find_hash id flags) [
  | none ↦ fault out_of_range
  | some label ↦ do
    lines ← print_attributes flags pretty_printer rest
    ok (pretty_printer label value ++ lines)
]

-- `ProcFile::do_printAttributes` and `UnlinkedFile::do_printAttributes`
abbrev pub print_proc_attributes : AttributeFlags → (Text → Text → Text) → ProcFile → Run Text
print_proc_attributes flags pretty_printer p = print_attributes flags pretty_printer p.attributes

abbrev pub print_unlinked_attributes :
    AttributeFlags → (Text → Text → Text) → UnlinkedFile → Run Text
print_unlinked_attributes flags pretty_printer f =
    print_attributes flags pretty_printer f.attributes
