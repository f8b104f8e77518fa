-- ===== src/Proc/Command.antt =====
-- The arguments of a process: `readCMD` of src/ProcReader.cpp.
use cphf.Base.{
  ℕ, ◌≡◌, ◌≢◌, refl, ◌∙◌, ap, false, List, [], ◌∷◌, ◌++◌, some, ◌==◌, arith, All, append_assoc,
  append-nil,
}
use cphf.Text.{Text, codes, decimal}
use cphf.Env.{Env}
use cphf.Proc.{command_words, read_cmd}

-- Arguments as the system lists them, each with a NUL at its end, and as they are shown.
unfoldable pub terminated : List Text → Text
terminated [] = []
terminated (a ∷ args) = a ++ 0 ∷ terminated args

unfoldable pub spaced : List Text → Text
spaced [] = []
spaced (a ∷ args) = a ++ b' ' ∷ spaced args

abbrev pub IsArgument : Text → Type 0
IsArgument = All (λ c. c ≢ 0)

command_words-append :
    (piece a rest : Text)
    → IsArgument a
    → command_words piece (a ++ 0 ∷ rest) ≡ (piece ++ a) ++ b' ' ∷ command_words [] rest
unfolding command_words
command_words-append piece [] rest h = rw (append-nil piece)
command_words-append piece (c ∷ a) rest h =
    let e : (c == 0) ≡ false = ground (arith, h.0) in
    rw e (
      command_words-append (piece ++ c ∷ []) a rest h.1
      ∙ ap (λ s. s ++ b' ' ∷ command_words [] rest) (append_assoc piece (c ∷ []) a))

command_words-terminated :
    (args : List Text) → All IsArgument args → command_words [] (terminated args) ≡ spaced args
unfolding terminated spaced
command_words-terminated [] h = unfold command_words in refl
command_words-terminated (a ∷ args) h =
    command_words-append [] a (terminated args) h.0
    ∙ ap (λ s. a ++ b' ' ∷ s) (command_words-terminated args h.1)

-- Where the system lists the arguments of a process, each without a NUL in it and with one behind
-- it, all of them are shown in their order, each with a space behind it.
pub read_cmd-terminated :
    (env : Env) (pid : ℕ) (args : List Text)
    → All IsArgument args
    → env.open_file (codes "/proc/" ++ decimal pid ++ codes "/cmdline") ≡ some (terminated args)
    → read_cmd env pid ≡ spaced args
unfolding read_cmd
read_cmd-terminated env pid args h e = rw (read_cmd, e) (command_words-terminated args h)
