-- ===== src/Terminal/Calculator/Steps.antt =====
-- What one call of the parser does with the writing of a part.
use Prim.Native.Char.{Char}
use Prim.Native.String.{[] as ε, ◌∷◌ as ◌▸◌}
use mathlib.Core.Option.{map, bind as bind_some}
use text.Mathlib.TextLemmas.{cons-append, append_assoc}
use tbd_dev.Prelude.{ℕ, suc, ◌<◌, String, false, Option, none, some, ◌⧺◌, ◌≡◌, refl, ap, ◌∙◌, arith}
use tbd_dev.Terminal.Shell.{is_space}
use tbd_dev.Terminal.Calculator.{
  Floats, length_text, skip, close_bracket, parse_number, parse_factor,
}
use tbd_dev.Terminal.Calculator.Fuel.{Outcome, ok, bind, or_failed}
use tbd_dev.Terminal.Calculator.Grammar.{IsBlank, IsNumeral, Expression, write}
use tbd_dev.Terminal.Calculator.Layout.{length_text-append, skip-blank_append}
use tbd_dev.Terminal.Calculator.Lengths.{bracket-append}
use tbd_dev.Terminal.Calculator.Follows.{
  EndsFactor, skip-sign, span_number-numeric, head_is-numeral, skip-numeral,
}

pub length-sign : (b : String) (c : Char) (s : String) → length_text s < length_text (b ⧺ (c ▸ s))
unfolding length_text
length-sign b c s = omega (arith, length_text-append b (c ▸ s))

-- A sign or bracket behind spaces.
pub signed : (b : String) (c : Char) (s rest : String) → (b ⧺ (c ▸ s)) ⧺ rest ≡ b ⧺ (c ▸ (s ⧺ rest))
signed b c s rest = append_assoc b (c ▸ s) rest ∙ ap (λ t. b ⧺ t) (cons-append c s rest)

pub plus_space : is_space "+" ≡ false
unfolding is_space
plus_space = refl

pub minus_space : is_space "-" ≡ false
unfolding is_space
minus_space = refl

pub bracket_space : is_space "(" ≡ false
unfolding is_space
bracket_space = refl

-- What `skip` leaves of a part that starts with a sign.
pub ahead :
    (b : String) (c : Char) (s rest : String)
    → IsBlank b
    → is_space c ≡ false
    → skip ((b ⧺ (c ▸ s)) ⧺ rest) ≡ (c ▸ (s ⧺ rest))
ahead b c s rest hb h = ap skip (signed b c s rest) ∙ skip-sign b c (s ⧺ rest) hb h

pub length-ahead :
    (b : String) (c : Char) (s rest : String)
    → length_text (s ⧺ rest) < length_text ((b ⧺ (c ▸ s)) ⧺ rest)
length-ahead b c s rest =
    omega (arith, ap length_text (signed b c s rest), length-sign b c (s ⧺ rest))

pub bracketed :
    (e : Expression) (end rest : String)
    → (write e ⧺ (end ⧺ (")" ▸ ε))) ⧺ rest ≡ write e ⧺ (end ⧺ (")" ▸ rest))
bracketed e end rest =
    append_assoc (write e) (end ⧺ (")" ▸ ε)) rest
    ∙ ap (λ t. write e ⧺ t)
        (append_assoc end (")" ▸ ε) rest ∙ ap (λ t. end ⧺ t) (bracket-append rest))

module _ (floats : Floats) where
  abbrev pub at : String → Option floats.Number → Outcome (floats.Number × String)
  at rest o = bind (or_failed o) (λ v. ok (v, rest))

  pub number-factor :
      (f : ℕ) (b text rest : String)
      → IsBlank b
      → IsNumeral text
      → EndsFactor rest
      → parse_factor floats (suc f) ((b ⧺ text) ⧺ rest) ≡ at rest (floats.number text)
  unfolding parse_factor parse_number
  number-factor f b text rest hb (told, ht) h =
      ap (parse_factor floats (suc f)) (append_assoc b text rest)
      ∙ rw
          (
            skip-blank_append b (text ⧺ rest) hb,
            skip-numeral text rest (told, ht),
            head_is-numeral b'+' text rest (told, ht) refl,
            head_is-numeral b'-' text rest (told, ht) refl,
            head_is-numeral b'(' text rest (told, ht) refl,
            skip-numeral text rest (told, ht),
            span_number-numeric false text rest ht h,
            told,
          )
          refl

  pub at-bind :
      (o : Option floats.Number) (r r' : String)
      (g : floats.Number → String → Outcome (floats.Number × String))
      (h : floats.Number → Option floats.Number)
      → ((v : floats.Number) → g v r ≡ at r' (h v))
      → bind (at r o) (λ (v, rest). g v rest) ≡ at r' (bind_some o h)
  unfolding bind_some
  at-bind none r r' g h k = refl
  at-bind (some v) r r' g h k = k v

  pub or_failed-bind :
      (o : Option floats.Number) (r : String) (g : floats.Number → Outcome (floats.Number × String))
      (h : floats.Number → Option floats.Number)
      → ((v : floats.Number) → g v ≡ at r (h v))
      → bind (or_failed o) g ≡ at r (bind_some o h)
  unfolding bind_some
  or_failed-bind none r g h k = refl
  or_failed-bind (some v) r g h k = k v

  pub at-negate :
      (o : Option floats.Number) (rest : String)
      → bind (at rest o) (λ (v, rest). ok (floats.negate v, rest)) ≡ at rest (map floats.negate o)
  at-negate none rest = refl
  at-negate (some v) rest = refl

  pub at-bracket :
      (o : Option floats.Number) (end rest : String)
      → IsBlank end
      → bind
          (at (skip (end ⧺ (")" ▸ rest))) o)
          (λ (v, rest). bind (close_bracket (skip rest)) (λ behind. ok (v, behind)))
        ≡ at rest o
  unfolding close_bracket skip is_space
  at-bracket none end rest he = refl
  at-bracket (some v) end rest he = rw (skip-sign end ")" rest he refl) refl
