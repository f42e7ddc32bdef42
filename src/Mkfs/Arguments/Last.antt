-- ===== src/Mkfs/Arguments/Last.antt =====
-- The device that tool/arguments.c takes from the command line.
use yaf.Base.{List, [], ◌∷◌, ◌++◌, map, ◌≡◌, refl, Bool, true, Option, some, none, ◌==◌, ◌&&◌, not}
use yaf.Mkfs.Arguments.{
  Arg, Arguments, Key, key_arg, key_no_args, key_init, key_end, key_success, key_fini, Parsed,
  returned, exited, Parser, parse_opt, ready, usage, mkfs_parse_arguments,
}

-- No argument begins with `-` (45).
abbrev pub positional : List Arg → Bool
positional [] = true
positional ([] ∷ argv) = positional argv
positional ((c ∷ arg) ∷ argv) = not (c == 45) && positional argv

-- The keys that argp passes to a parser, with their arguments: `ARGP_KEY_INIT`, each argument or that
-- there is none, and the three keys of the end.
abbrev pub ending : List (Key × Option Arg)
ending = (key_end, none) ∷ (key_success, none) ∷ (key_fini, none) ∷ []

abbrev each : List Arg → List (Key × Option Arg)
each argv = map (λ arg. (key_arg, some arg)) argv

abbrev pub keys : List Arg → List (Key × Option Arg)
keys [] = (key_init, none) ∷ (key_no_args, none) ∷ ending
keys (arg ∷ argv) = (key_init, none) ∷ each (arg ∷ argv) ++ ending

-- A parser, called with these keys in their order. `parse_opt` takes every argument, and leaves the
-- other keys with `ARGP_ERR_UNKNOWN`, after which argp goes on.
abbrev pub feed : Parser → List (Key × Option Arg) → Arguments → Parsed
feed parser [] a = returned 0 a
feed parser ((key, arg) ∷ more) a = elim (parser key arg a) [
  | returned code b ↦ feed parser more b
  | exited ↦ exited
]

-- What is documented of `argp_parse`, for arguments that are not options.
abbrev pub IsArgp : (Parser → List Arg → Arguments → Parsed) → Type 0
IsArgp argp_parse =
    (argv : List Arg) (a : Arguments)
    → positional argv ≡ true
    → argp_parse parse_opt argv a ≡ feed parse_opt (keys argv) a

-- The last of the arguments.
abbrev pub last : Arg → List Arg → Arg
last arg [] = arg
last arg (next ∷ argv) = last next argv

feed-each :
    (arg : Arg) (argv : List Arg) (a : Arguments)
    → feed parse_opt (each (arg ∷ argv) ++ ending) a
      ≡ returned 0 (record a { device = some (last arg argv) })
unfolding parse_opt
feed-each arg [] a = refl
feed-each arg (next ∷ argv) a = feed-each next argv (record a { device = some arg })

-- Of the arguments of the command line, none of which begins with `-`, the last is the device, and
-- without an argument the usage is printed: the assertion that there is a device never fails.
pub mkfs_parse_arguments-last :
    (argp_parse : Parser → List Arg → Arguments → Parsed) (argv : List Arg)
    → IsArgp argp_parse
    → positional argv ≡ true
    → mkfs_parse_arguments argp_parse argv
      ≡ elim argv [ [] ↦ usage | arg ∷ more ↦ ready (last arg more) ]
unfolding mkfs_parse_arguments parse_opt
mkfs_parse_arguments-last argp_parse [] is pos =
    rw (is [] (record { device = none }) pos, mkfs_parse_arguments) refl
mkfs_parse_arguments-last argp_parse (arg ∷ more) is pos =
    rw
      (
        is (arg ∷ more) (record { device = none }) pos,
        mkfs_parse_arguments,
        feed-each arg more (record { device = none }),
      )
      refl
