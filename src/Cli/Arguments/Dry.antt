-- ===== src/Cli/Arguments/Dry.antt =====
-- A command line of src/ddmp/__main__.py without `--yes` writes nothing that a run without a write does not.
use mathlib.Core.List.{Memᴰ}
use dometic_ddmp.Base.{
  ℕ, ◌≡◌, ◌||◌, ◌&&◌, leb, refl, ap, String, Bool, true, false, inl, inr, ◌⊎◌, Option, none, some,
  List, [], ◌∷◌, length, member, string_eq, ◌==◌, Bool-cases, arith,
}
use dometic_ddmp.Result.{Result, ok, Result-cases}
use dometic_ddmp.Text.{Text, codes}
use dometic_ddmp.Topic.{TopicRef, by_name, topic, writable}
use dometic_ddmp.Value.{Value, Floats}
use dometic_ddmp.SyncClient
use dometic_ddmp.SyncClient.{SyncClient}
use dometic_ddmp.Cli.{
  WriteArgs, World, run, connect, with_client, write_body, write, cmd_watch, cmd_state,
  cmd_set_temp, cmd_set, cmd_discover,
}
use dometic_ddmp.Cli.Writing.{write_body_outcome}
use dometic_ddmp.Cli.Arguments.{
  Func, discover_func, watch_func, state_func, set_temp_func, set_func, Subparser, store_true,
  conn_args, write_args, subparsers, Namespace, Parsed, exits, parsed, Parser, write_options,
  command_of, main_run,
}

-- A text that `argparse` takes for a long option: two hyphens and a part of its name at least.
unfoldable pub abbreviates : Text → Text → Bool
abbreviates [] [] = true
abbreviates [] (c ∷ s) = true
abbreviates (c ∷ t) [] = false
abbreviates (c ∷ t) (d ∷ s) = c == d && abbreviates t s

unfoldable pub given : Text → List Text → Bool
given spelling [] = false
given spelling (t ∷ argv) = leb 3 (length t) && abbreviates t spelling || given spelling argv

-- What `argparse` promises: an argument of a subparser that stores `True` is so only if it is given, in
-- full or abbreviated.
pub record IsArgparse {F : Type 0} (parse_args : Parser F) : Type 0 where
  pub chosen :
      (ps : List Subparser) (argv : List Text) (args : Namespace F) (p : Subparser) (s : Text)
      → parse_args ps argv ≡ parsed args
      → Memᴰ p ps
      → p.func ≡ args.func
      → Memᴰ (store_true s) p.arguments
      → args.get (store_true s) ≡ true
      → given s argv ≡ true

abbrev pub yes_argument : Text
yes_argument = codes "--yes"

-- The subparser of a command.
HasYes : Func → Type 0
HasYes f =
    (p : Subparser) × Memᴰ p subparsers × (p.func ≡ f) × Memᴰ (store_true yes_argument) p.arguments

set_temp-HasYes : HasYes set_temp_func
unfolding HasYes subparsers write_args conn_args
set_temp-HasYes = (
  _,
  Memᴰ.tail (Memᴰ.tail (Memᴰ.tail (Memᴰ.head refl))),
  refl,
  Memᴰ.tail (Memᴰ.tail (Memᴰ.tail (Memᴰ.tail (Memᴰ.tail (Memᴰ.tail (Memᴰ.head refl)))))),
)

set-HasYes : HasYes set_func
unfolding HasYes subparsers write_args conn_args
set-HasYes = (
  _,
  Memᴰ.tail (Memᴰ.tail (Memᴰ.tail (Memᴰ.tail (Memᴰ.head refl)))),
  refl,
  Memᴰ.tail (Memᴰ.tail (Memᴰ.tail (Memᴰ.tail (Memᴰ.tail (Memᴰ.tail (Memᴰ.head refl)))))),
)

module _ {F : Type 0} where
  -- A client that a command leaves has only connected and waited, and is closed.
  abbrev pub IsUntouched : World F → Option (SyncClient F) → Type 0
  IsUntouched w none = Unit
  IsUntouched w (some d) =
      (has_on_event : Bool) × (c : SyncClient F) × (connect w has_on_event ≡ ok c)
      × (d ≡ SyncClient.shut (w.waited c))

  with_client-IsUntouched :
      (w : World F) (b : Bool) (body : SyncClient F → SyncClient F × Result ℕ)
      → ((c : SyncClient F) → (body c).0 ≡ w.waited c)
      → IsUntouched w (with_client (connect w b) body).client
  unfolding with_client
  with_client-IsUntouched w b body h = elim (Result-cases (connect w b)) [
    | inr (x, e) ↦ rw (with_client, e) tt
    | inl (c, e) ↦ rw (with_client, e) (b, c, e, ap SyncClient.shut (h c))
  ]

Parsed-cases :
    {F : Type 0}
    → (r : Parsed F) → ((code : ℕ) × (r ≡ exits code)) ⊎ ((args : Namespace F) × (r ≡ parsed args))
Parsed-cases (exits code) = inl (code, refl)
Parsed-cases (parsed args) = inr (args, refl)

module _ {F : Type 0} ⦃fl : Floats F⦄ (w : World F) where
  write_body-dry :
      (args : WriteArgs) (ref : TopicRef) (v : Value F) (c : SyncClient F)
      → args.yes ≡ false
      → (write_body args ref v w.rounds c).0 ≡ c
  write_body-dry args ref v c dry = elim (write_body_outcome args ref v w.rounds c) [
    | inl (same, h) ↦ same
    | inr (s, h) ↦ absurd (let asked = s.asked in ground arith)
  ]

  write-dry :
      (args : WriteArgs) (ref : TopicRef) (v : Value F)
      → args.yes ≡ false
      → IsUntouched w (write w args ref v).client
  unfolding write
  write-dry args ref v dry =
      with_client-IsUntouched w true _ (λ c. write_body-dry args ref v (w.waited c) dry)

  cmd_set-dry :
      (name : String) (v : Text) (args : WriteArgs)
      → args.yes ≡ false
      → IsUntouched w (cmd_set w name v args).client
  unfolding cmd_set
  cmd_set-dry name v args dry = elim (Result-cases (topic (by_name name))) [
    | inr (x, e) ↦ rw (cmd_set, e) tt
    | inl (t, e) ↦ elim (Bool-cases (member t.name writable)) [
      | inr no_write ↦ rw (cmd_set, e) (rw no_write tt)
      | inl may_write ↦ rw (cmd_set, e) (rw may_write (write-dry args _ _ dry))
    ]
  ]

  command-dry :
      (lower : Text → Text) (f : Func) (args : Namespace F)
      → (HasYes f → args.get (store_true yes_argument) ≡ false)
      → IsUntouched w (run lower w (command_of f args)).client
  unfolding run command_of cmd_discover cmd_watch cmd_state cmd_set_temp write_options
  command-dry lower discover_func args dry = tt
  command-dry lower watch_func args dry = with_client-IsUntouched w true _ (λ c. refl)
  command-dry lower state_func args dry = with_client-IsUntouched w false _ (λ c. refl)
  command-dry lower set_temp_func args dry = write-dry _ _ _ (dry set_temp-HasYes)
  command-dry lower set_func args dry = cmd_set-dry _ _ _ (dry set-HasYes)

  -- Where `argparse` stores `True` for an argument only if it is given, and none of the texts of the
  -- arguments is `--yes` or a part of it from `--y` on: whatever the arguments, the network, the cooler
  -- and the other threads are, a client that `main` has made has done nothing but connect and wait, and
  -- is closed.
  pub main_run-IsUntouched :
      (parse_args : Parser F) (lower : Text → Text) (argv : List Text)
      → IsArgparse parse_args
      → given yes_argument argv ≡ false
      → IsUntouched w (main_run parse_args lower w argv).client
  unfolding main_run HasYes
  main_run-IsUntouched parse_args lower argv h not_given =
      elim (Parsed-cases (parse_args subparsers argv)) [
        | inl (code, e) ↦ rw (main_run, e) tt
        | inr (args, e) ↦
            rw (main_run, e)
              (command-dry lower args.func args (λ (has : HasYes args.func).
                elim (Bool-cases (args.get (store_true yes_argument))) [
                  | inr dry ↦ dry
                  | inl asked ↦
                      let (p, declared, own, stores) = has in
                      let there =
                        h.chosen subparsers argv args p yes_argument e declared own stores asked in
                      absurd (ground arith)
                ]))
      ]
