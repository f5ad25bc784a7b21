-- ===== src/Terminal/Shell.antt =====
-- web/src/app/page.tsx: how the terminal's shell reads a line: `tokenize`, `splitByOperator`,
-- `parseRedirection` and `limitOutput`.
pub mod Operators
pub mod Redirections
pub mod Quoting
use Prim.Native.Char.{Char, code}
use Prim.Native.String.{[] as ε, ◌∷◌ as ◌▸◌}
use tbd_dev.Prelude.{
  ℕ, zero, suc, ◌+◌, ◌-◌, String, Bool, true, false, Option, none, some, List, [], ◌∷◌, ◌++◌, ◌⧺◌,
  ◌||◌, ◌&&◌, not, ◌==◌, eqb, leb, if◌then◌else◌, length, take, truthy_text,
}

-- The state of the loop of `tokenize`; `skip` says that the next character was read ahead.
pub record Scan : Type 0 where
  pub tokens : List String
  pub current : String
  pub in_single : Bool
  pub in_double : Bool
  pub skip : Bool

abbrev pub start_scan : Scan
start_scan = record {
  tokens = [];
  current = "";
  in_single = false;
  in_double = false;
  skip = false;
}

-- `push`
unfoldable pub push : Scan → Scan
push s =
    if truthy_text s.current
    then record s { tokens = s.tokens ++ s.current ∷ []; current = "" }
    else s

abbrev push_token : String → Scan → Scan
push_token t s = record s { tokens = s.tokens ++ t ∷ [] }

abbrev add_char : Char → Scan → Scan
add_char c s = record s { current = s.current ⧺ (c ▸ ε) }

abbrev next_is : ℕ → String → Bool
next_is n ε = false
next_is n (c ▸ rest) = eqb (code c) n

-- `/\s/`
unfoldable pub is_space : Char → Bool
is_space c =
    (leb 9 (code c) && leb (code c) 13)
    || eqb (code c) 32
    || eqb (code c) 160
    || eqb (code c) 5760
    || (leb 8192 (code c) && leb (code c) 8202)
    || eqb (code c) 8232
    || eqb (code c) 8233
    || eqb (code c) 8239
    || eqb (code c) 8287
    || eqb (code c) 12288
    || eqb (code c) 65279

-- A character outside quotes, or a plain one.
unfoldable pub scan_plain : Char → String → Scan → Scan
unfolding push is_space
scan_plain c rest s =
    if not s.in_single && not s.in_double
    then if eqb (code c) b'&' && next_is b'&' rest
      then record (push_token "&&" (push s)) { skip = true }
      else if eqb (code c) b'>'
      then if next_is b'>' rest
        then record (push_token ">>" (push s)) { skip = true }
        else push_token ">" (push s)
      else if eqb (code c) b'|' || eqb (code c) b';'
      then push_token (c ▸ ε) (push s)
      else if is_space c
      then push s
      else add_char c s
    else add_char c s

-- A character that no backslash precedes.
unfoldable pub scan_quote : Char → String → Scan → Scan
unfolding scan_plain
scan_quote c rest s =
    if eqb (code c) b'\'' && not s.in_double
    then record s { in_single = not s.in_single }
    else if eqb (code c) b'"' && not s.in_single
    then record s { in_double = not s.in_double }
    else scan_plain c rest s

-- A backslash takes the next character as it is, unless the line ends.
abbrev escaped : Char → String → Scan → Scan
escaped c ε s = scan_quote c ε s
escaped c (d ▸ rest) s = record (add_char d s) { skip = true }

-- One round of the loop, with the rest of the line.
unfoldable pub scan_char : Char → String → Scan → Scan
unfolding scan_quote
scan_char c rest s =
    if s.skip
    then record s { skip = false }
    else if eqb (code c) b'\\' && not s.in_single
    then escaped c rest s
    else scan_quote c rest s

unfoldable pub scan : String → Scan → Scan
unfolding scan_char
scan ε s = s
scan (c ▸ rest) s = scan rest (scan_char c rest s)

unfoldable pub tokenize : String → List String
unfolding scan push
tokenize input = (push (scan input start_scan)).tokens

abbrev close_group : List (List String) → List String → List (List String)
close_group groups [] = groups
close_group groups (t ∷ ts) = groups ++ (t ∷ ts) ∷ []

-- The loop of `splitByOperator`.
unfoldable pub split_from :
    String → List (List String) → List String → List String → List (List String)
split_from op groups current [] = close_group groups current
split_from op groups current (token ∷ tokens) =
    if token == op
    then split_from op (close_group groups current) [] tokens
    else split_from op groups (current ++ token ∷ []) tokens

unfoldable pub split_by_operator : List String → String → List (List String)
unfolding split_from
split_by_operator tokens op = split_from op [] [] tokens

pub record Redirect : Type 0 where
  pub path : String
  pub append : Bool

abbrev pub is_redirect : String → Bool
is_redirect t = t == ">" || t == ">>"

abbrev with_front : String → List String × Option Redirect → List String × Option Redirect
with_front t (tokens, redirect) = (t ∷ tokens, redirect)

-- The tokens behind the operator; an empty target is no target.
abbrev redirected : String → List String → List String × Option Redirect
redirected op [] = ([], none)
redirected op (target ∷ rest) =
    if truthy_text target
    then (rest, some (record { path = target; append = op == ">>" }))
    else ([], none)

unfoldable pub parse_redirection : List String → List String × Option Redirect
parse_redirection [] = ([], none)
parse_redirection (t ∷ tokens) =
    let rest = parse_redirection tokens in
    if is_redirect t then redirected t tokens else with_front t rest

-- `limitOutput`, with the line that says how many were left out.
unfoldable pub limit_output {ℓ} : {Line : Type ℓ} → (ℕ → Line) → ℕ → List Line → List Line
limit_output note limit lines =
    if leb (length lines) limit then lines else take limit lines ++ note (length lines - limit) ∷ []
