-- ===== src/Terminal/Commands.antt =====
-- web/src/app/page.tsx, `runCommandTokens`: what a command reads, prints and changes. The files, the
-- variables and the aliases are shared and changed in place, so they are passed on.
pub mod FileCommands
pub mod NameCommands
pub mod TextCommands
pub mod Dispatch
pub mod Runs
pub mod Factor
use tbd_dev.Prelude.{
  ℕ, String, Bool, true, false, Option, none, some, List, [], ◌∷◌, ◌++◌, map, ◌==◌, if◌then◌else◌,
  any,
}
use tbd_dev.Terminal.Files.{Files}
use tbd_dev.Terminal.Variables.{Vars}

pub record OutputLine : Type 0 where
  pub text : String
  pub cls : Option String

pub record CommandResult : Type 0 where
  pub output : List OutputLine
  pub cwd : String
  pub exit_code : ℕ
  pub clear : Bool

-- `fsRef.current`, and the variables and aliases of a run.
pub record World : Type 0 where
  pub files : Files
  pub env : Vars
  pub aliases : Vars

abbrev pub error : String → OutputLine
error text = record { text = text; cls = some "text-red-400" }

abbrev pub info : String → OutputLine
info text = record { text = text; cls = some "text-zinc-400" }

abbrev pub plain : String → OutputLine
plain text = record { text = text; cls = none }

-- `ok(lines)`
unfoldable pub ok_lines : List String → List OutputLine
ok_lines lines = map plain lines

abbrev pub result : String → ℕ → List OutputLine → CommandResult
result cwd exit_code output = record {
  output = output;
  cwd = cwd;
  exit_code = exit_code;
  clear = false;
}

-- `args.includes(a)`
unfoldable pub includes : String → List String → Bool
includes a args = any (λ (t : String). t == a) args

-- What a command that works through its operands prints, and its status.
pub record Report : Type 0 where
  pub lines : List OutputLine
  pub code : ℕ

abbrev pub silent : Report
silent = record { lines = []; code = 0 }

-- A line of a failed operand, and the status 1, in front of what the later ones print.
abbrev pub complain : String → Report → Report
complain text r = record { lines = error text ∷ r.lines; code = 1 }

abbrev pub complain_if : Bool → String → Report → Report
complain_if wanted text r = if wanted then complain text r else r

abbrev pub reported : String → Report → CommandResult
reported cwd r = result cwd r.code r.lines
