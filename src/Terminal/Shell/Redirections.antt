-- ===== src/Terminal/Shell/Redirections.antt =====
-- Redirections and the limit of the output.
use mathlib.Core.List.{append-nil}
use tbd_dev.Prelude.{
  ℕ, zero, suc, ◌+◌, ◌-◌, ◌≤◌, String, true, false, Option, none, some, List, [], ◌∷◌, ◌++◌, ◌≡◌,
  inl, inr, refl, ap, ◌∙◌, arith, ◌==◌, leb, if◌then◌else◌, length, length-append, length-take,
  take, truthy_text, All, Bool-cases,
}
use tbd_dev.Terminal.Shell.{Redirect, is_redirect, redirected, parse_redirection, limit_output}

plain-parse_redirection :
    (tokens : List String)
    → All (λ (t : String). is_redirect t ≡ false) tokens
    → parse_redirection tokens ≡ (tokens, none)
unfolding parse_redirection
plain-parse_redirection [] h = refl
plain-parse_redirection (t ∷ tokens) (plain, h) = rw (plain, plain-parse_redirection tokens h) refl

abbrev in_front : List String → List String × Option Redirect → List String × Option Redirect
in_front before (tokens, redirect) = (before ++ tokens, redirect)

parse_redirection-append :
    (before : List String) (op : String) (after : List String)
    → All (λ (t : String). is_redirect t ≡ false) before
    → is_redirect op ≡ true
    → parse_redirection (before ++ op ∷ after) ≡ in_front before (redirected op after)
unfolding parse_redirection
parse_redirection-append [] op after h found = rw found refl
parse_redirection-append (t ∷ before) op after (plain, h) found =
    rw (plain, parse_redirection-append before op after h found) refl

-- A line without a redirection is left as it is. In one with a redirection the first operator and its
-- target are taken out, and the output goes to the target, behind what is there exactly for ">>". An
-- operator without a target, at the end of the line, is dropped, and one with an empty target is dropped
-- with all that follows it.
pub parse_redirection_lem :
    (before : List String) (op target : String) (after : List String)
    → All (λ (t : String). is_redirect t ≡ false) before
    → is_redirect op ≡ true
    → (parse_redirection before ≡ (before, none))
      × (parse_redirection (before ++ op ∷ []) ≡ (before, none))
      × (parse_redirection (before ++ op ∷ target ∷ after) ≡ (
          if truthy_text target
          then (before ++ after, some (record { path = target; append = op == ">>" }))
          else (before, none)))
parse_redirection_lem before op target after h found = (
  plain-parse_redirection before h,
  parse_redirection-append before op [] h found ∙ rw (append-nil before) refl,
  parse_redirection-append before op (target ∷ after) h found ∙ named,
)
  where
    named : in_front before (redirected op (target ∷ after)) ≡ (
        if truthy_text target
        then (before ++ after, some (record { path = target; append = op == ">>" }))
        else (before, none))
    named = elim (Bool-cases (truthy_text target)) [
      | inl told ↦ rw told refl
      | inr empty ↦ rw (empty, append-nil before) refl
    ]

module _ {ℓ} {Line : Type ℓ} where
  take-append : (n : ℕ) (xs ys : List Line) → n ≤ length xs → take n (take n xs ++ ys) ≡ take n xs
  take-append zero xs ys h = refl
  take-append (suc n) [] ys h = absurd (omega arith)
  take-append (suc n) (x ∷ xs) ys h = ap (λ zs. x ∷ zs) (take-append n xs ys (omega arith))

  -- The output has at most one line more than the limit, and up to the limit it is the output that was
  -- given.
  pub limit_output_lem :
      (note : ℕ → Line) (limit : ℕ) (lines : List Line)
      → (length (limit_output note limit lines) ≤ limit + 1)
        × (take limit (limit_output note limit lines) ≡ take limit lines)
  unfolding limit_output
  limit_output_lem note limit lines = elim (Bool-cases (leb (length lines) limit)) [
    | inl short ↦ rw short (ground arith, refl)
    | inr long ↦ rw long (
      omega (
        arith,
        length-append (take limit lines) (note (length lines - limit) ∷ []),
        length-take limit lines,
      ),
      take-append limit lines (note (length lines - limit) ∷ []) (ground arith),
    )
  ]
