-- ===== src/Cli/Arguments.antt =====
-- The arguments of the command line, as `main` of src/ddmp/__main__.py declares them. The `argparse`
-- library, which reads them, is a parameter.
pub mod Dry
use dometic_ddmp.Base.{
  ℕ, ℤ, pos, String, Bool, true, false, not, Option, none, some, List, [], ◌∷◌, ◌++◌,
}
use dometic_ddmp.Result.{ok}
use dometic_ddmp.Text.{Text, codes}
use dometic_ddmp.Frame.{default_port}
use dometic_ddmp.Value.{Floats}
use dometic_ddmp.Cli.{
  DiscoverArgs, WriteArgs, World, Run, Command, discover, watch, state, set_temp, set, run,
  exit_status,
}

-- What stands behind an argument: the name of a topic, another text, a text or nothing, a number, an
-- integer, an integer or nothing, and whether it was given.
pub data Kind : Type 0 where
  word text optional_text real whole optional_whole flag : Kind

abbrev pub ValueOf : Type 0 → Kind → Type 0
ValueOf F word = String
ValueOf F text = Text
ValueOf F optional_text = Option Text
ValueOf F real = F
ValueOf F whole = ℤ
ValueOf F optional_whole = Option ℤ
ValueOf F flag = Bool

-- What `add_argument` is told of a default: nothing, as for an argument that has to be there, or a number.
pub data Default : Type 0 where
  absent : Default
  number : ℕ → Default

-- One call of `add_argument`.
pub record Argument : Type 0 where
  pub spelling : Text
  pub kind : Kind
  pub default : Default

-- `set_defaults(func=...)`
pub data Func : Type 0 where
  discover_func watch_func state_func set_temp_func set_func : Func

-- One call of `add_parser`.
pub record Subparser : Type 0 where
  pub command : Text
  pub arguments : List Argument
  pub func : Func

abbrev pub store_true : Text → Argument
store_true spelling = record { spelling = spelling; kind = flag; default = absent }

abbrev pub port_argument : Argument
port_argument = record { spelling = codes "--port"; kind = whole; default = number default_port }

abbrev pub timeout_argument : ℕ → Argument
timeout_argument n = record { spelling = codes "--timeout"; kind = real; default = number n }

abbrev pub wait_argument : Argument
wait_argument = record { spelling = codes "--wait"; kind = real; default = number 3 }

abbrev pub probed_host : Argument
probed_host = record { spelling = codes "--host"; kind = optional_text; default = absent }

abbrev pub compartment_argument : Argument
compartment_argument = record {
  spelling = codes "--compartment";
  kind = optional_whole;
  default = absent;
}

abbrev pub celsius_argument : Argument
celsius_argument = record { spelling = codes "celsius"; kind = real; default = absent }

abbrev pub topic_argument : Argument
topic_argument = record { spelling = codes "topic"; kind = word; default = absent }

abbrev pub value_argument : Argument
value_argument = record { spelling = codes "value"; kind = text; default = absent }

-- `conn_args`
unfoldable pub conn_args : List Argument
conn_args =
    record { spelling = codes "host"; kind = text; default = absent }
    ∷ port_argument
    ∷ timeout_argument 5
    ∷ []

-- `write_args`
unfoldable pub write_args : List Argument
write_args =
    conn_args
    ++ compartment_argument
      ∷ wait_argument
      ∷ record { spelling = codes "--echo-timeout"; kind = real; default = number 10 }
      ∷ store_true (codes "--yes")
      ∷ store_true (codes "--quiet")
      ∷ []

-- The subparsers, in order.
unfoldable pub subparsers : List Subparser
subparsers =
    record {
      command = codes "discover";
      arguments =
          timeout_argument 3
          ∷ probed_host
          ∷ port_argument
          ∷ store_true (codes "--mdns-only")
          ∷ store_true (codes "--no-broadcast")
          ∷ [];
      func = discover_func;
    }
    ∷ record {
      command = codes "watch";
      arguments = conn_args ++ store_true (codes "--raw") ∷ store_true (codes "--json") ∷ [];
      func = watch_func;
    }
    ∷ record {
      command = codes "state";
      arguments = conn_args ++ wait_argument ∷ [];
      func = state_func;
    }
    ∷ record {
      command = codes "set-temp";
      arguments = write_args ++ celsius_argument ∷ [];
      func = set_temp_func;
    }
    ∷ record {
      command = codes "set";
      arguments = write_args ++ topic_argument ∷ value_argument ∷ [];
      func = set_func;
    }
    ∷ []

-- `args`: its `func`, and the value of each argument.
pub record Namespace (F : Type 0) : Type 0 where
  pub func : Func
  pub get : (a : Argument) → ValueOf F a.kind

-- What `parse_args` does: it ends the process with a code, or returns.
pub data Parsed (F : Type 0) : Type 0 where
  exits : ℕ → Parsed F
  parsed : Namespace F → Parsed F

abbrev pub Parser : Type 0 → Type 0
Parser F = List Subparser → List Text → Parsed F

module _ {F : Type 0} where
  -- What the commands read of `args`.
  unfoldable pub write_options : Namespace F → WriteArgs
  write_options args = record {
    compartment = args.get compartment_argument;
    yes = args.get (store_true (codes "--yes"));
  }

  unfoldable pub command_of : Func → Namespace F → Command F
  command_of discover_func args = discover (record {
    mdns_only = args.get (store_true (codes "--mdns-only"));
    host = args.get probed_host;
    port = args.get port_argument;
    no_broadcast = args.get (store_true (codes "--no-broadcast"));
  })
  command_of watch_func args = watch
  command_of state_func args = state
  command_of set_temp_func args = set_temp (args.get celsius_argument) (write_options args)
  command_of set_func args =
      set (args.get topic_argument) (args.get value_argument) (write_options args)

module _ {F : Type 0} ⦃fl : Floats F⦄ (parse_args : Parser F) (lower : Text → Text) where
  -- `main`, from the texts of the arguments.
  unfoldable pub main_run : World F → List Text → Run F
  main_run w argv = elim (parse_args subparsers argv) [
    | exits code ↦ record { client = none; code = ok code }
    | parsed args ↦ run lower w (command_of args.func args)
  ]

  unfoldable pub main_argv : World F → List Text → ℕ
  main_argv w argv = exit_status (main_run w argv).code
