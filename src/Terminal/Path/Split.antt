-- ===== src/Terminal/Path/Split.antt =====
-- Taking paths apart at their slashes, and putting them together.
use Prim.Native.Char.{Char, code}
use Prim.Native.String.{[] as ε, ◌∷◌ as ◌▸◌}
use text.Mathlib.TextLemmas.{nil-append, cons-append}
use tbd_dev.Prelude.{
  String, true, List, [], ◌∷◌, ◌≡◌, ◌≢◌, ◌∙◌, refl, ap, arith, eqb, truthy_text, filterb, ◌⧺◌, All,
  Bool-cases, inl, inr,
}
use tbd_dev.Terminal.Path.{push_front, split, join, split_path}

abbrev pub NoSlash : String → Type 0
NoSlash ε = Unit
NoSlash (c ▸ s) = (code c ≢ b'/') × NoSlash s

-- What stands between two slashes.
abbrev pub IsPart : String → Type 0
IsPart p = (truthy_text p ≡ true) × NoSlash p

push_front-NoSlash :
    (c : Char) (ps : List String) → code c ≢ b'/' → All NoSlash ps → All NoSlash (push_front c ps)
unfolding push_front
push_front-NoSlash c [] h _ = ((h, tt), tt)
push_front-NoSlash c (p ∷ ps) h (k, ks) = ((h, k), ks)

split-NoSlash : (s : String) → All NoSlash (split s)
unfolding split
split-NoSlash ε = (tt, tt)
split-NoSlash (c ▸ s) = elim (Bool-cases (eqb (code c) b'/')) [
  | inl slash ↦ rw slash (tt, split-NoSlash s)
  | inr other ↦ rw other (push_front-NoSlash c (split s) (ground arith) (split-NoSlash s))
]

filterb-IsPart : (ps : List String) → All NoSlash ps → All IsPart (filterb truthy_text ps)
filterb-IsPart [] _ = tt
filterb-IsPart (p ∷ ps) (h, hs) = elim (Bool-cases (truthy_text p)) [
  | inl full ↦ rw full ((full, h), filterb-IsPart ps hs)
  | inr empty ↦ rw empty (filterb-IsPart ps hs)
]

-- The parts of a path are not empty and hold no slash.
pub split_path-IsPart : (s : String) → All IsPart (split_path s)
unfolding split_path
split_path-IsPart s = filterb-IsPart (split s) (split-NoSlash s)

split-slash : (p s : String) → NoSlash p → split (p ⧺ "/" ⧺ s) ≡ p ∷ split s
unfolding split push_front
split-slash ε s _ = rw (nil-append, cons-append, nil-append) refl
split-slash (c ▸ p) s (h, hs) = rw cons-append (elim (Bool-cases (eqb (code c) b'/')) [
  | inl slash ↦ absurd (ground arith)
  | inr other ↦ rw (other, split-slash p s hs) refl
])

split_one : (p : String) → NoSlash p → split p ≡ p ∷ []
unfolding split push_front
split_one ε _ = refl
split_one (c ▸ p) (h, hs) = elim (Bool-cases (eqb (code c) b'/')) [
  | inl slash ↦ absurd (ground arith)
  | inr other ↦ rw (other, split_one p hs) refl
]

pub split-join :
    (p : String) (ps : List String) → All NoSlash (p ∷ ps) → split (join (p ∷ ps)) ≡ p ∷ ps
unfolding join
split-join p [] (h, _) = split_one p h
split-join p (q ∷ ps) (h, hs) =
    split-slash p (join (q ∷ ps)) h ∙ ap (λ parts. p ∷ parts) (split-join q ps hs)

filterb-parts : (ps : List String) → All IsPart ps → filterb truthy_text ps ≡ ps
filterb-parts [] _ = refl
filterb-parts (p ∷ ps) ((full, _), hs) = rw full (ap (λ parts. p ∷ parts) (filterb-parts ps hs))

pub parts-NoSlash : (ps : List String) → All IsPart ps → All NoSlash ps
parts-NoSlash [] _ = tt
parts-NoSlash (p ∷ ps) ((_, h), hs) = (h, parts-NoSlash ps hs)

-- Joining parts with slashes and splitting the text again gives the parts.
pub split_path-join : (ps : List String) → All IsPart ps → split_path (join ps) ≡ ps
unfolding split_path
split_path-join [] _ = unfold join split in refl
split_path-join (p ∷ ps) h =
    ap (filterb truthy_text) (split-join p ps (parts-NoSlash (p ∷ ps) h)) ∙ filterb-parts (p ∷ ps) h
