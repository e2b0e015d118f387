-- ===== src/Cli/Printed.antt =====
-- What the output of the commands of src/ddmp/__main__.py says about the cooler.
use dometic_ddmp.Base.{ℕ, suc, ◌≡◌, Bool, Option, none, some, List, [], ◌∷◌, ◌++◌}
use dometic_ddmp.Text.{Text, codes}
use dometic_ddmp.Bytes.{Bytes}
use dometic_ddmp.Result.{Error}
use dometic_ddmp.Expectation.{Event}
use dometic_ddmp.Session
use dometic_ddmp.Session.{Session}
use dometic_ddmp.SyncClient.{SyncClient}
use dometic_ddmp.Cli.Readable.{Tells}
use dometic_ddmp.Cli.Print.{Line, out, complain, Format}

module _ {F : Type 0} (format : Format F) (clock : ℕ → Text) (raw as_json : Bool) where
  -- One line for each event on the standard output, each with its time, that says what the event is.
  abbrev pub AllTold : ℕ → List (Event F) → List Line → Type 0
  AllTold i [] [] = Unit
  AllTold i [] (line ∷ lines) = ⊥
  AllTold i (e ∷ events) [] = ⊥
  AllTold i (e ∷ events) (complain t ∷ lines) = ⊥
  AllTold i (e ∷ events) (out t ∷ lines) =
      Tells format (clock i) raw as_json e t × AllTold (suc i) events lines

  -- What is printed of the end: nothing if the client was closed, else one complaint with the reason.
  abbrev pub IsEnding : Option Error → List Line → Type 0
  IsEnding none lines = lines ≡ []
  IsEnding (some x) lines =
      lines ≡ complain (codes "connection closed: " ++ format.str_error x) ∷ []
