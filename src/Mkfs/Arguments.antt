-- ===== src/Mkfs/Arguments.antt =====
-- The arguments of `mkfs`, tool/arguments.c. `argp_parse` is glibc's and a parameter: it is given the
-- parser, the arguments of the command line without the program's name, and the initial
-- `Arguments`.
pub mod Last
use yaf.Base.{ℕ, List, [], ◌∷◌, Option, some, none, ◌==◌, if◌then◌else◌}

-- A string of `argv`, by its bytes.
abbrev pub Arg : Type 0
Arg = List ℕ

-- `Arguments`: no device is the null pointer.
pub record Arguments : Type 0 where
  pub device : Option Arg

-- The keys that `parse_opt` tells apart, and those that argp passes besides.
pub data Key : Type 0 where
  key_arg key_no_args key_init key_end key_success key_fini : Key

-- What a parser does: it returns a code with the arguments as they are then, or it has called
-- `argp_usage`, which ends the program.
pub data Parsed : Type 0 where
  returned : ℕ → Arguments → Parsed
  exited : Parsed

-- `ARGP_ERR_UNKNOWN` is glibc's E2BIG.
abbrev pub argp_err_unknown : ℕ
argp_err_unknown = 7

-- `parse_opt`; the argument is null where the key has none.
unfoldable pub parse_opt : Key → Option Arg → Arguments → Parsed
parse_opt key_arg arg a = returned 0 (record a { device = arg })
parse_opt key_no_args arg a = exited
parse_opt key_init arg a = returned argp_err_unknown a
parse_opt key_end arg a = returned argp_err_unknown a
parse_opt key_success arg a = returned argp_err_unknown a
parse_opt key_fini arg a = returned argp_err_unknown a

abbrev pub Parser : Type 0
Parser = Key → Option Arg → Arguments → Parsed

-- The end of `mkfs_parse_arguments`: the arguments, the exit with the usage, or a failed assertion.
pub data Command : Type 0 where
  ready : Arg → Command
  usage : Command
  aborted : Command

-- `mkfs_parse_arguments`, which drops the code that `argp_parse` returns.
unfoldable pub mkfs_parse_arguments : (Parser → List Arg → Arguments → Parsed) → List Arg → Command
mkfs_parse_arguments argp_parse argv = elim (argp_parse parse_opt argv (record { device = none })) [
  | exited ↦ usage
  | returned code a ↦ elim a.device [ some device ↦ ready device | none ↦ aborted ]
]
