-- ===== src/Terminal/Shell/Quoting.antt =====
-- What quotes protect.
use Prim.Native.Char.{Char, code}
use Prim.Native.String.{[] as ε, ◌∷◌ as ◌▸◌}
use text.Mathlib.TextLemmas.{nil-append, cons-append, append_assoc, append-nil}
use mathlib.Core.List.{append-nil as list_append-nil, append_assoc as list_append_assoc}
use tbd_dev.Prelude.{
  String, true, false, List, [], ◌∷◌, ◌++◌, ◌⧺◌, ◌≡◌, ◌≢◌, refl, ap, sym, ◌∙◌, arith, truthy_text,
  All,
}
use tbd_dev.Terminal.Shell.{Scan, push, is_space, scan_plain, scan_quote, scan_char, scan, tokenize}

-- A text without single quotes.
abbrev pub NoQuote : String → Type 0
NoQuote ε = Unit
NoQuote (c ▸ s) = (code c ≢ b'\'') × NoQuote s

-- Inside single quotes, with nothing read ahead.
abbrev inside : List String → String → Scan
inside tokens current = record {
  tokens = tokens;
  current = current;
  in_single = true;
  in_double = false;
  skip = false;
}

scan_char-inside :
    (c : Char) (rest current : String) (tokens : List String)
    → code c ≢ b'\''
    → scan_char c rest (inside tokens current) ≡ inside tokens (current ⧺ (c ▸ ε))
unfolding scan_char scan_quote scan_plain
scan_char-inside c rest current tokens h = ground arith

scan-inside :
    (s rest current : String) (tokens : List String)
    → NoQuote s
    → scan (s ⧺ rest) (inside tokens current) ≡ scan rest (inside tokens (current ⧺ s))
unfolding scan
scan-inside ε rest current tokens h = rw (nil-append rest, append-nil current) refl
scan-inside (c ▸ s) rest current tokens (h, hs) =
    ap (λ t. scan t (inside tokens current)) (cons-append c s rest)
    ∙ ap (scan (s ⧺ rest)) (scan_char-inside c (s ⧺ rest) current tokens h)
    ∙ scan-inside s rest (current ⧺ (c ▸ ε)) tokens hs
    ∙ ap (λ t. scan rest (inside tokens t)) joined
  where
    joined : (current ⧺ (c ▸ ε)) ⧺ s ≡ current ⧺ (c ▸ s)
    joined =
        append_assoc current (c ▸ ε) s
        ∙ ap (λ t. current ⧺ t) (cons-append c ε s ∙ ap (λ t. c ▸ t) (nil-append s))

-- Outside quotes, with the current token.
abbrev outside : List String → String → Scan
outside tokens current = record {
  tokens = tokens;
  current = current;
  in_single = false;
  in_double = false;
  skip = false;
}

-- Each word in single quotes, with a space behind it.
unfoldable pub quoted : List String → String
quoted [] = ""
quoted (w ∷ ws) = "'" ⧺ (w ⧺ ("' " ⧺ quoted ws))

open_quote :
    (rest : String) (tokens : List String)
    → scan ("'" ⧺ rest) (outside tokens "") ≡ scan rest (inside tokens "")
unfolding scan scan_char scan_quote
open_quote rest tokens = rw (cons-append "'" ε rest, nil-append rest) refl

close_quote :
    (rest w : String) (tokens : List String)
    → truthy_text w ≡ true
    → scan ("' " ⧺ rest) (inside tokens w) ≡ scan rest (outside (tokens ++ w ∷ []) "")
unfolding scan scan_char scan_quote scan_plain push is_space
close_quote rest w tokens told =
    rw (cons-append "'" " " rest, cons-append " " ε rest, nil-append rest, told) refl

scan-quoted :
    (ws tokens : List String)
    → All (λ (w : String). (truthy_text w ≡ true) × NoQuote w) ws
    → scan (quoted ws) (outside tokens "") ≡ outside (tokens ++ ws) ""
unfolding quoted scan
scan-quoted [] tokens h = ap (λ ts. outside ts "") (sym (list_append-nil tokens))
scan-quoted (w ∷ ws) tokens ((told, plain), h) =
    open_quote (w ⧺ ("' " ⧺ quoted ws)) tokens
    ∙ scan-inside w ("' " ⧺ quoted ws) "" tokens plain
    ∙ ap (λ t. scan ("' " ⧺ quoted ws) (inside tokens t)) (nil-append w)
    ∙ close_quote (quoted ws) w tokens told
    ∙ scan-quoted ws (tokens ++ w ∷ []) h
    ∙ ap (λ ts. outside ts "") (list_append_assoc tokens (w ∷ []) ws)

-- Words in single quotes are read back as they are: spaces, operators, backslashes, double quotes and
-- all else that is not a single quote stand for themselves, if no word is empty.
pub tokenize-quoted :
    (ws : List String)
    → All (λ (w : String). (truthy_text w ≡ true) × NoQuote w) ws
    → tokenize (quoted ws) ≡ ws
unfolding tokenize push
tokenize-quoted ws h = ap (λ (s : Scan). (push s).tokens) (scan-quoted ws [] h)
