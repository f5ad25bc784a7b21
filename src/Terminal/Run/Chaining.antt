-- ===== src/Terminal/Run/Chaining.antt =====
-- What the chaining of commands keeps, and how lines compose.
use tbd_dev.Prelude.{
  String, Bool, true, false, Option, none, some, List, [], ◌∷◌, ◌≢◌, eqb, not, any, All, ◌==◌,
  Bool-cases, inl, inr,
}
use tbd_dev.Terminal.Path.{resolve_path, to_absolute}
use tbd_dev.Terminal.Files.{Files}
use tbd_dev.Terminal.Files.Write.{write_file}
use tbd_dev.Terminal.Shell.{tokenize, split_by_operator, Redirect, parse_redirection}
use tbd_dev.Terminal.Variables.{Vars, set_var}
use tbd_dev.Terminal.Commands.{World}
use tbd_dev.Terminal.Commands.Dispatch.{Platform, run_command_tokens}
use tbd_dev.Terminal.Run.{
  Pipe, Line, Session, with_alias, redirected, written, run_part, run_parts, run_segment,
  run_segments, run_groups, run_shell, run_tokens, is_last, file_text, begin, expanded,
}

-- What the commands and the redirections keep, a line keeps.
module _ (js : Platform) (Inv : World → String → Type 0)
    (command : (tokens stdin : List String) (cwd : String) (w : World)
      → Inv w cwd
      → Inv
          (run_command_tokens js tokens stdin cwd w).0
          (run_command_tokens js tokens stdin cwd w).1.cwd)
    (write : (w : World) (cwd path text : String) (append : Bool)
      → Inv w cwd
      → Inv
          (record w { files = (write_file js.now (resolve_path cwd path) text append w.files).0 })
          cwd)
    (assign : (w : World) (cwd : String) (env : Vars)
      → Inv w cwd
      → Inv (record w { env = env }) cwd) where
  abbrev PipeInv : Pipe → Type 0
  PipeInv p = Inv p.world p.cwd

  abbrev LineInv : Line → Type 0
  LineInv l = Inv l.world l.cwd

  written-Inv :
      (p : Pipe) (o : Files × Option String)
      → Inv (record p.world { files = o.0 }) p.cwd
      → PipeInv (written p o)
  written-Inv p (fs, none) h = h
  written-Inv p (fs, some e) h = h

  redirected-Inv :
      (last : Bool) (r : Option Redirect) (p : Pipe)
      → PipeInv p
      → PipeInv (redirected js.now last r p)
  unfolding redirected
  redirected-Inv true (some r) p h =
      written-Inv p
        (write_file js.now (resolve_path p.cwd r.path) (file_text p.output) r.append p.world.files)
        (write p.world p.cwd r.path (file_text p.output) r.append h)
  redirected-Inv true none p h = h
  redirected-Inv false r p h = h

  run_part-Inv :
      (last : Bool) (part : List String) (p : Pipe) → PipeInv p → PipeInv (run_part js last part p)
  unfolding run_part
  run_part-Inv last part p h =
      let (tokens, r) = parse_redirection part in
      redirected-Inv last r _ (command (with_alias p.world.aliases tokens) p.stdin p.cwd p.world h)

  run_parts-Inv :
      (parts : List (List String)) (p : Pipe) → PipeInv p → PipeInv (run_parts js parts p)
  unfolding run_parts
  run_parts-Inv [] p h = h
  run_parts-Inv (part ∷ parts) p h =
      let next = run_part-Inv (is_last parts) part p h in
      elim (Bool-cases (eqb (run_part js (is_last parts) part p).exit 0)) [
        | inl good ↦ rw good (run_parts-Inv parts _ next)
        | inr bad ↦ rw bad next
      ]

  run_segments-Inv :
      (segments : List (List String)) (l : Line) → LineInv l → LineInv (run_segments js segments l)
  unfolding run_segments run_segment
  run_segments-Inv [] l h = h
  run_segments-Inv ([] ∷ segments) l h = run_segments-Inv segments l h
  run_segments-Inv ((t ∷ ts) ∷ segments) l h =
      let next = run_parts-Inv (split_by_operator (t ∷ ts) "|") _ h in
      elim (Bool-cases (eqb (run_segment js (t ∷ ts) l).exit_code 0)) [
        | inl good ↦ rw good (run_segments-Inv segments _ next)
        | inr bad ↦ rw bad next
      ]

  run_groups-Inv :
      (groups : List (List String)) (l : Line) → LineInv l → LineInv (run_groups js groups l)
  unfolding run_groups
  run_groups-Inv [] l h = h
  run_groups-Inv (group ∷ groups) l h =
      run_groups-Inv groups _ (run_segments-Inv (split_by_operator group "&&") l h)

  pub run_shell-Inv :
      (input : String) (s : Session)
      → Inv s.world s.cwd
      → Inv (run_shell js input s).0.world (run_shell js input s).0.cwd
  unfolding run_shell
  run_shell-Inv input s h = with_tokens (tokenize input)
    where
      with_tokens :
          (tokens : List String)
          → Inv (run_tokens js tokens s).0.world (run_tokens js tokens s).0.cwd
      with_tokens [] = h
      with_tokens (t ∷ ts) = assign _ _ _ (
          run_groups-Inv (split_by_operator (expanded js (t ∷ ts) s) ";") (begin js s)
            (assign s.world s.cwd (set_var "PWD" (to_absolute s.cwd) s.world.env) h))

-- Some token is not the operator.
abbrev pub has_command : String → List String → Bool
has_command op tokens = any (λ (t : String). not (t == op)) tokens

abbrev AllFull : List (List String) → Type 0
AllFull = All (λ (group : List String). group ≢ [])
