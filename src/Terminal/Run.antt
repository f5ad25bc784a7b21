-- ===== src/Terminal/Run.antt =====
-- web/src/app/page.tsx, `runShell`: a line is a sequence of groups between `;`, a group is segments
-- between `&&`, and a segment is a pipeline.
pub mod Chaining
pub mod Directory
pub mod Store
use tbd_dev.Prelude.{
  ℕ, zero, suc, String, Bool, true, false, Option, none, some, List, [], ◌∷◌, ◌++◌, ◌⧺◌, ◌||◌, ◌&&◌,
  not, ◌==◌, eqb, if◌then◌else◌, map, or_else, truthy,
}
use tbd_dev.Terminal.Path.{resolve_path, to_absolute}
use tbd_dev.Terminal.Files.{Files}
use tbd_dev.Terminal.Files.Write.{write_file}
use tbd_dev.Terminal.Shell.{tokenize, split_by_operator, Redirect, parse_redirection, limit_output}
use tbd_dev.Terminal.Variables.{Vars, get_var, set_var, expand_token}
use tbd_dev.Terminal.Commands.{OutputLine, CommandResult, World, error, result}
use tbd_dev.Terminal.Commands.Dispatch.{Platform, run_command_tokens}

-- The state of the loop over a pipeline's parts.
pub record Pipe : Type 0 where
  pub stdin : List String
  pub exit : ℕ
  pub cwd : String
  pub output : List OutputLine
  pub clear : Bool
  pub world : World

-- The state of the loops over groups and segments.
pub record Line : Type 0 where
  pub cwd : String
  pub exit_code : ℕ
  pub output : List OutputLine
  pub clear : Bool
  pub world : World

-- `envRef`, `aliasRef`, `lastStatusRef`, `fsRef` and the `cwd` of the terminal.
pub record Session : Type 0 where
  pub world : World
  pub last_status : ℕ
  pub cwd : String

abbrev pub text_of : OutputLine → String
text_of line = line.text

-- `lines.map((l) => l.text).join("\n") + "\n"`
unfoldable pub file_text : List OutputLine → String
file_text [] = "\n"
file_text (l ∷ []) = l.text ⧺ "\n"
file_text (l ∷ m ∷ ls) = l.text ⧺ "\n" ⧺ file_text (m ∷ ls)

-- An alias in front is replaced by its tokens.
unfoldable pub with_alias : Vars → List String → List String
unfolding get_var tokenize
with_alias aliases [] = []
with_alias aliases (cmd ∷ args) =
    if truthy (get_var cmd aliases)
    then tokenize (or_else (get_var cmd aliases) "") ++ args
    else cmd ∷ args

abbrev written : Pipe → Files × Option String → Pipe
written p (fs, some err) = record p {
  output = error ("redirect: " ⧺ err) ∷ [];
  exit = 1;
  world = record p.world { files = fs };
}
written p (fs, none) = record p { output = []; exit = 0; world = record p.world { files = fs } }

-- The redirection of the last part.
unfoldable pub redirected : ℕ → Bool → Option Redirect → Pipe → Pipe
unfolding file_text resolve_path write_file
redirected now true (some r) p =
    written p
      (write_file now (resolve_path p.cwd r.path) (file_text p.output) r.append p.world.files)
redirected now _ _ p = p

abbrev ran : Bool → World × CommandResult → Pipe
ran cleared (w, r) = record {
  stdin = [];
  exit = r.exit_code;
  cwd = r.cwd;
  output = if r.clear then [] else r.output;
  clear = cleared || r.clear;
  world = w;
}

abbrev fed : Pipe → Pipe
fed p = record p { stdin = map text_of p.output }

abbrev pub is_last : List (List String) → Bool
is_last [] = true
is_last (part ∷ parts) = false

module _ (js : Platform) where
  abbrev run_clean : Bool → List String × Option Redirect → Pipe → Pipe
  run_clean last (tokens, redirect) p = fed (
      redirected js.now last redirect (
        ran p.clear
          (run_command_tokens js (with_alias p.world.aliases tokens) p.stdin p.cwd p.world)))

  -- One part of a pipeline.
  unfoldable pub run_part : Bool → List String → Pipe → Pipe
  unfolding redirected with_alias run_command_tokens parse_redirection
  run_part last part p = run_clean last (parse_redirection part) p

  -- The loop over the parts, which stops behind one that failed.
  unfoldable pub run_parts : List (List String) → Pipe → Pipe
  unfolding run_part
  run_parts [] p = p
  run_parts (part ∷ parts) p =
      let done = run_part (is_last parts) part p in
      if eqb done.exit 0 then run_parts parts done else done

  abbrev start_pipe : Line → Pipe
  start_pipe l = record {
    stdin = [];
    exit = 0;
    cwd = l.cwd;
    output = [];
    clear = l.clear;
    world = l.world;
  }

  abbrev end_pipe : Line → Pipe → Line
  end_pipe l p = record {
    cwd = p.cwd;
    exit_code = p.exit;
    output = l.output ++ p.output;
    clear = p.clear;
    world = p.world;
  }

  -- One segment, which is not empty.
  unfoldable pub run_segment : List String → Line → Line
  unfolding run_parts split_by_operator
  run_segment segment l = end_pipe l (run_parts (split_by_operator segment "|") (start_pipe l))

  -- The loop over the segments between `&&`, which stops behind one that failed.
  unfoldable pub run_segments : List (List String) → Line → Line
  unfolding run_segment
  run_segments [] l = l
  run_segments ([] ∷ segments) l = run_segments segments l
  run_segments ((t ∷ ts) ∷ segments) l =
      let done = run_segment (t ∷ ts) l in
      if eqb done.exit_code 0 then run_segments segments done else done

  -- The loop over the groups between `;`.
  unfoldable pub run_groups : List (List String) → Line → Line
  unfolding run_segments split_by_operator
  run_groups [] l = l
  run_groups (group ∷ groups) l = run_groups groups (run_segments (split_by_operator group "&&") l)

  abbrev truncated : ℕ → OutputLine
  truncated n = record {
    text = "... (" ⧺ js.print n ⧺ " more lines truncated)";
    cls = some "text-zinc-500";
  }

  abbrev pub begin : Session → Line
  begin s = record {
    cwd = s.cwd;
    exit_code = 0;
    output = [];
    clear = false;
    world = record s.world { env = set_var "PWD" (to_absolute s.cwd) s.world.env };
  }

  abbrev pub end : Line → Session × CommandResult
  end l = (
    record {
      world = record l.world { env = set_var "PWD" (to_absolute l.cwd) l.world.env };
      last_status = l.exit_code;
      cwd = l.cwd;
    },
    record {
      output = limit_output truncated 300 l.output;
      cwd = l.cwd;
      exit_code = l.exit_code;
      clear = l.clear;
    },
  )

  -- Every token is expanded before the first command runs.
  abbrev pub expanded : List String → Session → List String
  expanded tokens s =
      map (λ (t : String). expand_token js.print t (begin s).world.env s.last_status s.cwd) tokens

  abbrev pub run_tokens : List String → Session → Session × CommandResult
  run_tokens [] s = (s, result s.cwd 0 [])
  run_tokens (t ∷ ts) s = end (run_groups (split_by_operator (expanded (t ∷ ts) s) ";") (begin s))

  -- `runShell`, with the `setCwd` of `handleCommand`.
  unfoldable pub run_shell : String → Session → Session × CommandResult
  unfolding tokenize run_groups split_by_operator expand_token set_var to_absolute limit_output
  run_shell input s = run_tokens (tokenize input) s
