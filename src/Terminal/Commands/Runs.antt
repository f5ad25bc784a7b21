-- ===== src/Terminal/Commands/Runs.antt =====
-- What `uniq` counts.
use mathlib.Core.List.{append-nil}
use tbd_dev.Prelude.{
  ℕ, zero, suc, String, Option, none, some, List, [], ◌∷◌, ◌++◌, ◌≡◌, ◌≢◌, ◌∙◌, refl, sym, ap,
  arith, ◌==◌, eq_iff, Bool-cases, inl, inr,
}
use tbd_dev.Terminal.Commands.TextCommands.{flush, uniq_from, uniq_runs, repeated}

-- The lines that runs stand for.
abbrev pub unfold_runs : List (String × ℕ) → List String
unfold_runs [] = []
unfold_runs ((line, n) ∷ runs) = repeated n line ++ unfold_runs runs

abbrev pub first_line : List (String × ℕ) → Option String
first_line [] = none
first_line ((line, n) ∷ runs) = some line

-- Runs of one line or more, and no two neighbours of the same line.
abbrev pub IsApart : List (String × ℕ) → Type 0
IsApart [] = Unit
IsApart ((line, n) ∷ runs) = (n ≢ 0) × (first_line runs ≢ some line) × IsApart runs

repeated-snoc :
    (n : ℕ) (s : String) (rest : List String)
    → repeated n s ++ s ∷ rest ≡ s ∷ (repeated n s ++ rest)
unfolding repeated
repeated-snoc zero s rest = refl
repeated-snoc (suc n) s rest = ap (λ xs. s ∷ xs) (repeated-snoc n s rest)

unfold_runs-flush :
    (prev : String) (n : ℕ) (runs : List (String × ℕ))
    → unfold_runs (flush prev n ++ runs) ≡ repeated n prev ++ unfold_runs runs
unfolding flush repeated
unfold_runs-flush prev zero runs = refl
unfold_runs-flush prev (suc n) runs = refl

unfold_runs-uniq_from :
    (prev : String) (n : ℕ) (lines : List String)
    → unfold_runs (uniq_from prev n lines) ≡ repeated n prev ++ lines
unfolding uniq_from repeated
unfold_runs-uniq_from prev n [] =
    ap unfold_runs (sym (append-nil (flush prev n))) ∙ unfold_runs-flush prev n []
unfold_runs-uniq_from prev n (line ∷ lines) = elim (Bool-cases (line == prev)) [
  | inl same ↦ rw same (
      unfold_runs-uniq_from prev (suc n) lines
      ∙ sym (repeated-snoc n prev lines)
      ∙ ap (λ l. repeated n prev ++ l ∷ lines) (sym ((eq_iff line prev).0 same)))
  | inr other ↦ rw other (
      unfold_runs-flush prev n (uniq_from line 1 lines)
      ∙ ap (λ ls. repeated n prev ++ ls) (unfold_runs-uniq_from line 1 lines))
]

first_line-uniq_from :
    (prev : String) (n : ℕ) (lines : List String)
    → first_line (uniq_from prev (suc n) lines) ≡ some prev
unfolding uniq_from flush
first_line-uniq_from prev n [] = refl
first_line-uniq_from prev n (line ∷ lines) = elim (Bool-cases (line == prev)) [
  | inl same ↦ rw same (first_line-uniq_from prev (suc n) lines)
  | inr other ↦ rw other refl
]

uniq_from-IsApart : (prev : String) (n : ℕ) (lines : List String) → IsApart (uniq_from prev n lines)
unfolding uniq_from flush
uniq_from-IsApart prev zero [] = tt
uniq_from-IsApart prev (suc n) [] = ((λ e. ground arith), (λ e. cc), tt)
uniq_from-IsApart prev zero (line ∷ lines) = elim (Bool-cases (line == prev)) [
  | inl same ↦ rw same (uniq_from-IsApart prev 1 lines)
  | inr other ↦ rw other (uniq_from-IsApart line 1 lines)
]
uniq_from-IsApart prev (suc n) (line ∷ lines) = elim (Bool-cases (line == prev)) [
  | inl same ↦ rw same (uniq_from-IsApart prev (suc (suc n)) lines)
  | inr other ↦ rw other (
    (λ e. ground arith),
    (λ e.
        let named = sym (first_line-uniq_from line 0 lines) ∙ e in
        ground (arith, eq_iff line prev, named)),
    uniq_from-IsApart line 1 lines,
  )
]

-- The runs that `uniq` prints stand for the lines that it read, one for one and in their order; none is
-- empty, and no two neighbours repeat a line.
pub uniq_runs_lem :
    (lines : List String) → (unfold_runs (uniq_runs lines) ≡ lines) × IsApart (uniq_runs lines)
unfolding uniq_runs repeated
uniq_runs_lem lines = (unfold_runs-uniq_from "" 0 lines, uniq_from-IsApart "" 0 lines)
