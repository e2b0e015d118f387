-- ===== src/Tests/Arguments.antt =====
-- A command line without `--yes`, read by a parser that knows one command.
use dometic_ddmp.Base.{ℤ, pos, ◌≡◌, refl, ap, ◌∙◌, Bool, true, false, none, List, [], ◌∷◌}
use dometic_ddmp.Text.{Text, codes, lower}
use dometic_ddmp.Value.Milli.{thousandths}
use dometic_ddmp.Cli.Arguments.{
  Kind, word, text, optional_text, real, whole, optional_whole, flag, ValueOf, set_temp_func,
  Subparser, store_true, Namespace, Parsed, exits, parsed, Parser, main_run,
}
use dometic_ddmp.Cli.Arguments.Dry.{
  abbreviates, given, yes_argument, IsArgparse, IsUntouched, main_run-IsUntouched,
}
use dometic_ddmp.Tests.Commands.{world}

-- A temperature of 3.5 degrees for whatever the texts are.
abbrev value_of : List Text → Text → (k : Kind) → ValueOf ℤ k
value_of argv s word = "csettemp"
value_of argv s text = codes "cooler.local"
value_of argv s optional_text = none
value_of argv s real = pos 3500
value_of argv s whole = pos 13142
value_of argv s optional_whole = none
value_of argv s flag = given s argv

abbrev set_temp_parser : Parser ℤ
set_temp_parser ps [] = exits 2
set_temp_parser ps (t ∷ argv) =
    parsed (record { func = set_temp_func; get = λ a. value_of (t ∷ argv) a.spelling a.kind })

abbrev flag_in : Text → Parsed ℤ → Bool
flag_in s (exits code) = false
flag_in s (parsed args) = args.get (store_true s)

flag-given :
    (ps : List Subparser) (argv : List Text) (args : Namespace ℤ) (s : Text)
    → set_temp_parser ps argv ≡ parsed args
    → args.get (store_true s) ≡ true
    → given s argv ≡ true
unfolding given
flag-given ps [] args s e asked = ap (flag_in s) e ∙ asked
flag-given ps (t ∷ argv) args s e asked = ap (flag_in s) e ∙ asked

set_temp_parser-IsArgparse : IsArgparse set_temp_parser
set_temp_parser-IsArgparse = record {
  chosen = λ ps argv args p s e declared own stores asked. flag-given ps argv args s e asked;
}

abbrev argv : List Text
argv = codes "set-temp" ∷ codes "cooler.local" ∷ codes "3.5" ∷ codes "--quiet" ∷ []

no_yes : given yes_argument argv ≡ false
unfolding given abbreviates
no_yes = refl

shortened : given yes_argument (codes "--ye" ∷ argv) ≡ true
unfolding given abbreviates
shortened = refl

main_run-IsUntouched_example : IsUntouched world (main_run set_temp_parser lower world argv).client
main_run-IsUntouched_example =
    main_run-IsUntouched world set_temp_parser lower argv set_temp_parser-IsArgparse no_yes
