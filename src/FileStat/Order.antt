-- ===== src/FileStat/Order.antt =====
-- The order of the options in `readFileStatAttributes` of src/FileStatReader.cpp.

use cphf.Base.{ℕ, ◌≡◌, refl, [], ◌∷◌, ok, Ensures, >>=-congr, ◌<◌, ◌^◌}
use cphf.Text.{Text, holds}
use cphf.Reader.Options.{IsSetBy, collect_values, collect_values_order}
use cphf.Map.{Map, int_less}
use cphf.Env.{Env}
use cphf.Reader.Options.{option_in, option_in-cases}
use cphf.FileStat.Cases.{cases, process_option-cases}
use cphf.FileStat.{FileInfo, process_option, add_reader, collect, insert}

-- The option that sets an id.
abbrev pub option_of : ℕ → ℕ
option_of = option_in cases

pub process_option-IsSetBy :
    (env : Env) (c : ℕ) (info : FileInfo)
    → Ensures (IsSetBy (λ c. process_option env c info) option_of c) (process_option env c info)
process_option-IsSetBy env c info =
    process_option-cases (λ id. (id < 2 ^ 32) × (option_of id ≡ c)) env c info
      (option_in-cases cases c refl)

pub collect-collect_values :
    (env : Env) (info : FileInfo) (options : Text) (m : Map ℕ Text)
    → collect env options info m ≡ collect_values (λ c. process_option env c info) options m
unfolding collect collect_values add_reader
collect-collect_values env info [] m = refl
collect-collect_values env info (c ∷ options) m =
    >>=-congr (process_option env c info) _ _
      λ a. collect-collect_values env info options (insert int_less a.0 a.1 m)

-- Where two texts hold the same options, whatever the order and however often, and both are read
-- without a fault, the same attributes are collected for a file, in the same order.
pub collect_order :
    (env : Env) (info : FileInfo) (s t : Text) {m m' : Map ℕ Text}
    → ((c : ℕ) → holds s c ≡ holds t c)
    → collect env s info [] ≡ ok m
    → collect env t info [] ≡ ok m'
    → m ≡ m'
collect_order env info s t same e e' =
    collect_values_order (λ c. process_option env c info) option_of s t
      (λ c. process_option-IsSetBy env c info) same (rw (collect-collect_values env info s []) at e)
      (rw (collect-collect_values env info t []) at e')
