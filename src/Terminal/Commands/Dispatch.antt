-- ===== src/Terminal/Commands/Dispatch.antt =====
-- web/src/app/page.tsx, `runCommandTokens`: the assignments in front of a command, and the choice of it.
-- JavaScript's functions, the list of commands and the commands that are not modelled are a parameter; the
-- latter leave the directory and the variables alone, and `cp` is the one that changes files.
use tbd_dev.Prelude.{ℕ, String, true, List, [], ◌∷◌, ◌||◌, ◌==◌, if◌then◌else◌}
use tbd_dev.Terminal.Files.{Files}
use tbd_dev.Terminal.Calculator.{Floats}
use tbd_dev.Terminal.Variables.{Vars, assignments}
use tbd_dev.Terminal.Commands.{CommandResult, World, result, Report, reported}
use tbd_dev.Terminal.Commands.FileCommands.{cd, cat, mkdir, touch, rm, mv, file_command}
use tbd_dev.Terminal.Commands.NameCommands.{
  alias_command, unalias_command, export_command, unset_all, env_command, which_command,
}
use tbd_dev.Terminal.Commands.TextCommands.{pwd, echo, uniq, yes, calculate}

pub record Platform : Type 1 where
  pub floats : Floats
  pub print : ℕ → String
  pub trim : String → String
  pub sort : List String → List String
  pub now : ℕ
  pub command_list : List String
  -- the other commands: the arguments, the input, the directory and the world
  pub others : String → List String → List String → String → World → Files × Report

abbrev with_files : World → Files × CommandResult → World × CommandResult
with_files w (fs, r) = (record w { files = fs }, r)

abbrev with_aliases : World → Vars × CommandResult → World × CommandResult
with_aliases w (aliases, r) = (record w { aliases = aliases }, r)

abbrev with_env : World → Vars × CommandResult → World × CommandResult
with_env w (env, r) = (record w { env = env }, r)

abbrev with_report : World → String → Files × Report → World × CommandResult
with_report w cwd (fs, r) = (record w { files = fs }, reported cwd r)

module _ (js : Platform) where
  -- The commands that change what is shared.
  unfoldable pub run_changing :
      String → List String → List String → String → World → World × CommandResult
  unfolding mkdir touch rm mv alias_command unalias_command export_command unset_all
  run_changing cmd args stdin cwd w =
      if cmd == "mkdir"
      then with_files w (mkdir js.now args cwd w.files)
      else if cmd == "touch"
      then with_files w (touch js.now args cwd w.files)
      else if cmd == "rm"
      then with_files w (rm args cwd w.files)
      else if cmd == "mv"
      then with_files w (mv args cwd w.files)
      else if cmd == "alias"
      then with_aliases w (alias_command js.trim args cwd w.aliases)
      else if cmd == "unalias"
      then with_aliases w (unalias_command args cwd w.aliases)
      else if cmd == "export"
      then with_env w (export_command js.sort args cwd w.env)
      else if cmd == "unset"
      then (record w { env = unset_all args w.env }, result cwd 0 [])
      else with_report w cwd (js.others cmd args stdin cwd w)

  unfoldable pub run_command :
      String → List String → List String → String → World → World × CommandResult
  unfolding run_changing cd pwd cat echo uniq yes calculate file_command env_command which_command
  run_command cmd args stdin cwd w =
      if cmd == "clear" || cmd == "reset"
      then (w, record { output = []; cwd = cwd; exit_code = 0; clear = true })
      else if cmd == "pwd"
      then (w, pwd cwd)
      else if cmd == "cd"
      then (w, cd args cwd w.files)
      else if cmd == "cat"
      then (w, cat args stdin cwd w.files)
      else if cmd == "echo"
      then (w, echo args cwd)
      else if cmd == "uniq"
      then (w, uniq js.print args stdin cwd w.files)
      else if cmd == "env" || cmd == "printenv"
      then (w, env_command js.sort cwd w.env)
      else if cmd == "which" || cmd == "type"
      then (w, which_command js.command_list cmd args cwd w.aliases)
      else if cmd == "file"
      then (w, file_command args cwd w.files)
      else if cmd == "true"
      then (w, result cwd 0 [])
      else if cmd == "false"
      then (w, result cwd 1 [])
      else if cmd == "yes"
      then (w, yes args cwd)
      else if cmd == "bc" || cmd == "expr"
      then (w, calculate js.floats cmd args cwd)
      else run_changing cmd args stdin cwd w

  abbrev pub dispatch : List String × Vars → List String → String → World → World × CommandResult
  dispatch ([], env) stdin cwd w = (record w { env = env }, result cwd 0 [])
  dispatch (cmd ∷ args, env) stdin cwd w = run_command cmd args stdin cwd (record w { env = env })

  -- `runCommandTokens`
  unfoldable pub run_command_tokens :
      List String → List String → String → World → World × CommandResult
  unfolding run_command assignments
  run_command_tokens tokens stdin cwd w = dispatch (assignments tokens w.env) stdin cwd w
