-- ===== src/Examples/Machine.antt =====
-- Numbers, functions of JavaScript and a terminal for the examples. The numbers are natural: a difference
-- stops at 0, a negation is 0, the part behind a dot is dropped, and a number is written as a tally.
use Prim.Native.Char.{code}
use Prim.Native.String.{[] as ε, ◌∷◌ as ◌▸◌}
use tbd_dev.Prelude.{
  ℕ, zero, suc, ◌+◌, ◌-◌, ◌*◌, ◌/◌, ◌%◌, String, true, Option, none, some, [], ◌∷◌, ◌⧺◌, eqb,
  if◌then◌else◌,
}
use tbd_dev.Terminal.Files.{make_dir}
use tbd_dev.Terminal.Calculator.{Floats, is_digit}
use tbd_dev.Terminal.Commands.{silent}
use tbd_dev.Terminal.Commands.Dispatch.{Platform}
use tbd_dev.Terminal.Run.{Session}

abbrev digits : Option ℕ → String → Option ℕ
digits o ε = o
digits none (c ▸ s) = if is_digit c then digits (some (code c - 48)) s else none
digits (some n) (c ▸ s) = if is_digit c then digits (some (10 * n + (code c - 48))) s else some n

unfoldable pub tally : ℕ → String
tally zero = ""
tally (suc n) = "I" ⧺ tally n

abbrev pub whole : Floats
whole = record {
  Number = ℕ;
  number = digits none;
  negate = λ n. 0;
  add = λ m n. m + n;
  subtract = λ m n. m - n;
  multiply = λ m n. m * n;
  divide = λ m n. m / n;
  remainder = λ m n. m % n;
  is_zero = λ n. eqb n 0;
  is_finite = λ n. true;
  show = tally;
}

abbrev pub machine : Platform
machine = record {
  floats = whole;
  print = tally;
  trim = λ s. s;
  sort = λ names. names;
  now = 0;
  command_list = "ls" ∷ "cd" ∷ [];
  others = λ cmd args stdin cwd w. (w.files, silent);
}

abbrev pub at_home : Session
at_home = record {
  world = record { files = make_dir [] 0 ∷ []; env = []; aliases = [] };
  last_status = 0;
  cwd = "~";
}
