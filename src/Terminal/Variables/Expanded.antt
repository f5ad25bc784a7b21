-- ===== src/Terminal/Variables/Expanded.antt =====
-- What the expansion of a token gives.
use Prim.Native.Char.{Char, code}
use Prim.Native.String.{[] as ε, ◌∷◌ as ◌▸◌}
use text.Mathlib.TextLemmas.{nil-append, cons-append}
use tbd_dev.Prelude.{
  ℕ, zero, suc, ◌+◌, ◌||◌, String, Bool, true, false, some, [], ◌∷◌, ◌⧺◌, ◌==◌, ◌≡◌, refl, ap, sym,
  ◌∙◌, arith, eqb, eq_iff, Bool-cases, inl, inr, eq_refl, subst, or_else, before_mark, after_mark,
}
use tbd_dev.Terminal.Path.{home_dir, to_absolute}
use tbd_dev.Terminal.Variables.{
  Vars, get_var, set_var, is_word, all_word, is_valid_var_name, word_front, text_length,
  variable_at, value_of, expand_from, expand_token,
}

-- A text without `$`.
abbrev pub NoDollar : String → Type 0
NoDollar ε = Unit
NoDollar (c ▸ s) = (eqb (code c) b'$' ≡ false) × NoDollar s

-- No name goes on here.
abbrev pub ends_word : String → Bool
ends_word ε = true
ends_word (c ▸ s) = elim (is_word c) [ true ↦ false | false ↦ true ]

word_front-append :
    (word rest : String)
    → all_word word ≡ true
    → ends_word rest ≡ true
    → word_front (word ⧺ rest) ≡ word
unfolding word_front all_word
word_front-append ε ε hw hr = ap word_front (nil-append ε)
word_front-append ε (c ▸ rest) hw hr = ap word_front (nil-append (c ▸ rest)) ∙ ground arith
word_front-append (c ▸ word) rest hw hr =
    ap word_front (cons-append c word rest)
    ∙ rw (word_front-append word rest (ground arith) hr) (ground arith)

expand_from-skip :
    (value : String → String) (word rest : String)
    → expand_from value (text_length word) (word ⧺ rest) ≡ expand_from value zero rest
unfolding expand_from text_length
expand_from-skip value ε rest = ap (expand_from value zero) (nil-append rest)
expand_from-skip value (c ▸ word) rest =
    ap (expand_from value (suc (text_length word))) (cons-append c word rest)
    ∙ expand_from-skip value word rest

expand_from-plain :
    (value : String → String) (plain rest : String)
    → NoDollar plain
    → expand_from value zero (plain ⧺ rest) ≡ plain ⧺ expand_from value zero rest
unfolding expand_from
expand_from-plain value ε rest h =
    ap (expand_from value zero) (nil-append rest) ∙ sym (nil-append _)
expand_from-plain value (c ▸ plain) rest (other, h) =
    ap (expand_from value zero) (cons-append c plain rest)
    ∙ rw other (
        ap (λ s. c ▸ s) (expand_from-plain value plain rest h)
        ∙ sym (cons-append c plain (expand_from value zero rest)))

expand_from-name :
    (value : String → String) (c : Char) (word rest : String)
    → all_word (c ▸ word) ≡ true
    → ends_word rest ≡ true
    → expand_from value zero ("$" ▸ ((c ▸ word) ⧺ rest))
      ≡ value (c ▸ word) ⧺ expand_from value zero rest
unfolding expand_from variable_at text_length
expand_from-name value c word rest hw hr =
    rw (word_front-append (c ▸ word) rest hw hr, expand_from)
      (ap (λ s. value (c ▸ word) ⧺ s) (expand_from-skip value (c ▸ word) rest))

pub get_var-set_var :
    (name value : String) (env : Vars) → get_var name (set_var name value env) ≡ some value
unfolding get_var set_var
get_var-set_var name value [] = rw (eq_refl name) refl
get_var-set_var name value ((k, v) ∷ env) =
    ground (arith, eq_iff k name, get_var-set_var name value env)

wrong : ¬ (is_valid_var_name "?" ≡ true)
unfolding is_valid_var_name
wrong h = cc

empty : ¬ (is_valid_var_name ε ≡ true)
unfolding is_valid_var_name
empty h = cc

words :
    (c : Char) (word : String) → is_valid_var_name (c ▸ word) ≡ true → all_word (c ▸ word) ≡ true
unfolding is_valid_var_name all_word
words c word h = ground arith

value_of-set_var :
    (print : ℕ → String) (name value cwd : String) (env : Vars) (status : ℕ)
    → is_valid_var_name name ≡ true
    → value_of print (set_var name value env) status cwd name ≡ value
unfolding value_of
value_of-set_var print name value cwd env status valid = elim (Bool-cases (name == "?")) [
  | inl status_key ↦
      absurd
        (wrong (subst (λ n. is_valid_var_name n ≡ true) ((eq_iff name "?").0 status_key) valid))
  | inr a ↦ elim (Bool-cases (name == "PWD")) [
    | inl pwd ↦
        rw (a, pwd)
          (ap (λ o. or_else o (to_absolute cwd)) (found "PWD" ((eq_iff name "PWD").0 pwd)))
    | inr b ↦ elim (Bool-cases (name == "HOME")) [
      | inl home ↦
          rw (a, b, home)
            (ap (λ o. or_else o home_dir) (found "HOME" ((eq_iff name "HOME").0 home)))
      | inr c ↦ rw (a, b, c) (ap (λ o. or_else o "") (get_var-set_var name value env))
    ]
  ]
]
  where
    found : (k : String) → name ≡ k → get_var k (set_var name value env) ≡ some value
    found k e =
        subst (λ n. get_var n (set_var name value env) ≡ some value) e
          (get_var-set_var name value env)

-- A word of a name holds no closing brace.
before_mark-word :
    (word rest : String) → all_word word ≡ true → before_mark b'}' (word ⧺ ("}" ▸ rest)) ≡ word
unfolding before_mark all_word
before_mark-word ε rest h = ap (before_mark b'}') (nil-append ("}" ▸ rest))
before_mark-word (c ▸ word) rest h =
    ap (before_mark b'}') (cons-append c word ("}" ▸ rest))
    ∙ rw (before_mark-word word rest (ground arith)) (ground arith)

after_mark-word :
    (word rest : String) → all_word word ≡ true → after_mark b'}' (word ⧺ ("}" ▸ rest)) ≡ some rest
unfolding after_mark all_word
after_mark-word ε rest h = ap (after_mark b'}') (nil-append ("}" ▸ rest))
after_mark-word (c ▸ word) rest h =
    ap (after_mark b'}') (cons-append c word ("}" ▸ rest))
    ∙ rw (after_mark-word word rest (ground arith)) (ground arith)

expand_from-skip_brace :
    (value : String → String) (word rest : String)
    → expand_from value (suc (text_length word)) (word ⧺ ("}" ▸ rest)) ≡ expand_from value zero rest
unfolding expand_from text_length
expand_from-skip_brace value ε rest = ap (expand_from value (suc zero)) (nil-append ("}" ▸ rest))
expand_from-skip_brace value (c ▸ word) rest =
    ap (expand_from value (suc (suc (text_length word)))) (cons-append c word ("}" ▸ rest))
    ∙ expand_from-skip_brace value word rest

expand_from-braced :
    (value : String → String) (c : Char) (word rest : String)
    → all_word (c ▸ word) ≡ true
    → expand_from value zero ("$" ▸ "{" ▸ ((c ▸ word) ⧺ ("}" ▸ rest)))
      ≡ value (c ▸ word) ⧺ expand_from value zero rest
unfolding expand_from variable_at word_front
expand_from-braced value c word rest hw =
    rw (before_mark-word (c ▸ word) rest hw, after_mark-word (c ▸ word) rest hw)
      (ap (λ s. value (c ▸ word) ⧺ s)
        (ap (λ n. expand_from value n ("{" ▸ ((c ▸ word) ⧺ ("}" ▸ rest)))) two_more
          ∙ expand_from-skip_brace value (c ▸ word) rest))
  where
    two_more : 2 + text_length (c ▸ word) ≡ suc (suc (text_length (c ▸ word)))
    two_more = omega arith

-- A name in a token, with braces or without, and what follows it.
abbrev pub naming : Bool → String → String → String
naming true name rest = "$" ▸ "{" ▸ (name ⧺ ("}" ▸ rest))
naming false name rest = "$" ▸ (name ⧺ rest)

expand_from-naming :
    (value : String → String) (braces : Bool) (c : Char) (word rest : String)
    → all_word (c ▸ word) ≡ true
    → braces || ends_word rest ≡ true
    → expand_from value zero (naming braces (c ▸ word) rest)
      ≡ value (c ▸ word) ⧺ expand_from value zero rest
expand_from-naming value true c word rest hw hr = expand_from-braced value c word rest hw
expand_from-naming value false c word rest hw hr = expand_from-name value c word rest hw hr

-- A variable that was set stands for its value where a token names it as `${name}`, or as `$name` with no
-- character of a name behind it: what is in front of the `$`, if that holds no other, stays, and what
-- follows is expanded on its own.
pub expand_token-set_var :
    (print : ℕ → String) (braces : Bool) (plain name value rest cwd : String) (env : Vars)
    (status : ℕ)
    → is_valid_var_name name ≡ true
    → NoDollar plain
    → braces || ends_word rest ≡ true
    → expand_token print (plain ⧺ naming braces name rest) (set_var name value env) status cwd
      ≡ plain ⧺ (value ⧺ expand_token print rest (set_var name value env) status cwd)
unfolding expand_token
expand_token-set_var print braces plain ε value rest cwd env status valid h ends =
    absurd (empty valid)
expand_token-set_var print braces plain (c ▸ word) value rest cwd env status valid h ends =
    expand_from-plain lookup plain (naming braces (c ▸ word) rest) h
    ∙ ap (λ s. plain ⧺ s)
        (expand_from-naming lookup braces c word rest (words c word valid) ends
          ∙ ap (λ v. v ⧺ expand_from lookup zero rest)
              (value_of-set_var print (c ▸ word) value cwd env status valid))
  where
    lookup : String → String
    lookup = value_of print (set_var (c ▸ word) value env) status cwd
