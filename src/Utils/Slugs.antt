-- ===== src/Utils/Slugs.antt =====
-- What `slugify` makes.
use Prim.Native.Char.{Char}
use Prim.Native.String.{[] as ε, ◌∷◌ as ◌▸◌}
use text.Mathlib.TextEquality.{Char-path}
use tbd_dev.Prelude.{
  String, Bool, true, false, ◌≡◌, ◌∙◌, refl, ap, arith, ◌&&◌, not, Bool-cases, inl, inr,
  if◌then◌else◌,
}
use tbd_dev.Utils.{is_plain, is_dash, dashed, without_front, without_end, slugify}

-- Letters, digits and single dashes behind a dash or none; the last is no dash.
unfoldable pub is_words : Bool → String → Bool
is_words dash ε = not dash
is_words dash (c ▸ s) =
    if is_plain c then is_words false s else is_dash c && not dash && is_words true s

-- Words of letters and digits, joined by single dashes: `^([a-z0-9]+(-[a-z0-9]+)*)?$`.
unfoldable pub is_slug : String → Bool
unfolding is_words
is_slug ε = true
is_slug (c ▸ s) = is_words true (c ▸ s)

-- The same, where a dash may be the last.
is_spaced : Bool → String → Bool
is_spaced dash ε = true
is_spaced dash (c ▸ s) =
    if is_plain c then is_spaced false s else is_dash c && not dash && is_spaced true s

is_spaced-dashed : (in_run : Bool) (s : String) → is_spaced in_run (dashed in_run s) ≡ true
unfolding dashed is_spaced
is_spaced-dashed in_run ε = refl
is_spaced-dashed in_run (c ▸ s) = elim (Bool-cases (is_plain c)) [
  | inl plain ↦ rw (plain, is_spaced, plain) (is_spaced-dashed false s)
  | inr other ↦ rw other (replaced in_run (is_spaced-dashed true s))
]
  where
    replaced :
        (run : Bool)
        → is_spaced true (dashed true s) ≡ true
        → is_spaced run (if run then dashed true s else "-" ▸ dashed true s) ≡ true
    replaced true h = h
    replaced false h = h

not_dash : (c : Char) → is_plain c ≡ true → is_dash c ≡ false
not_dash c plain = ground arith

is_spaced-without_front :
    (s : String) → is_spaced false s ≡ true → is_spaced true (without_front s) ≡ true
unfolding is_spaced
is_spaced-without_front ε h = refl
is_spaced-without_front (c ▸ s) h = elim (Bool-cases (is_plain c)) [
  | inl plain ↦ rw (not_dash c plain, plain) (rw plain at h)
  | inr other ↦ elim (Bool-cases (is_dash c)) [
    | inl dash ↦ rw dash (rw (other, dash, is_spaced) at h)
    | inr neither ↦ absurd (let h' = rw (other, neither) at h in cc)
  ]
]

-- A letter or digit in front of what the end was taken from.
is_words-plain :
    (dash : Bool) (c : Char) (s : String)
    → is_plain c ≡ true
    → is_words false (without_end s) ≡ true
    → is_words dash (without_end (c ▸ s)) ≡ true
unfolding is_words without_end
is_words-plain dash c ε plain h = rw (not_dash c plain, is_words, plain) refl
is_words-plain dash c (d ▸ s) plain h = rw (plain) h

is_words-without_end :
    (s : String) → is_spaced false s ≡ true → is_words false (without_end s) ≡ true
unfolding is_spaced is_words without_end
is_words-without_end ε h = refl
is_words-without_end (c ▸ ε) h = elim (Bool-cases (is_dash c)) [
  | inl dash ↦ rw dash refl
  | inr other ↦ elim (Bool-cases (is_plain c)) [
    | inl plain ↦ rw (other, plain) refl
    | inr neither ↦ absurd (let h' = rw (neither, other) at h in cc)
  ]
]
is_words-without_end (c ▸ d ▸ s) h = elim (Bool-cases (is_plain c)) [
  | inl plain ↦ is_words-plain false c (d ▸ s) plain (is_words-without_end (d ▸ s) (rw plain at h))
  | inr other ↦ elim (Bool-cases (is_dash c)) [
    | inr neither ↦ absurd (let h' = rw (other, neither) at h in cc)
    | inl dash ↦ elim (Bool-cases (is_plain d)) [
      | inr again ↦ absurd (let h' = rw (other, dash, again) at h in ground arith)
      | inl plain ↦
          rw (other, dash)
            (is_words-plain true d s plain (is_words-without_end s (rw (other, dash, plain) at h)))
    ]
  ]
]

is_slug-of_words : (s : String) → is_words true s ≡ true → is_slug s ≡ true
unfolding is_slug is_words
is_slug-of_words ε h = refl
is_slug-of_words (c ▸ s) h = h

is_slug-of_spaced : (s : String) → is_spaced true s ≡ true → is_slug (without_end s) ≡ true
unfolding is_spaced is_words without_end is_slug
is_slug-of_spaced ε h = refl
is_slug-of_spaced (c ▸ s) h = elim (Bool-cases (is_plain c)) [
  | inl plain ↦
      is_slug-of_words (without_end (c ▸ s))
        (is_words-plain true c s plain (is_words-without_end s (rw plain at h)))
  | inr other ↦ absurd (let h' = rw other at h in ground arith)
]

-- A slug is left as it is.
dashed-fixed : (dash : Bool) (s : String) → is_words dash s ≡ true → dashed dash s ≡ s
unfolding is_words dashed
dashed-fixed dash ε h = refl
dashed-fixed dash (c ▸ s) h = elim (Bool-cases (is_plain c)) [
  | inl plain ↦ rw plain (ap (λ t. c ▸ t) (dashed-fixed false s (rw plain at h)))
  | inr other ↦ elim (Bool-cases (is_dash c)) [
    | inr neither ↦ absurd (let h' = rw (other, neither) at h in cc)
    | inl mark ↦ elim (Bool-cases dash) [
      | inl again ↦ absurd (let h' = rw (other, mark, again) at h in cc)
      | inr first ↦
          rw (other, first)
            (ap (λ e. e ▸ dashed true s) (Char-path "-" c (ground arith))
              ∙ ap (λ t. c ▸ t) (dashed-fixed true s (rw (other, mark, first) at h)))
    ]
  ]
]

without_front-fixed : (s : String) → is_words true s ≡ true → without_front s ≡ s
unfolding is_words
without_front-fixed ε h = refl
without_front-fixed (c ▸ s) h = elim (Bool-cases (is_plain c)) [
  | inl plain ↦ rw (not_dash c plain) refl
  | inr other ↦ absurd (let h' = rw other at h in ground arith)
]

without_end-fixed : (dash : Bool) (s : String) → is_words dash s ≡ true → without_end s ≡ s
unfolding is_words without_end
without_end-fixed dash ε h = refl
without_end-fixed dash (c ▸ ε) h = elim (Bool-cases (is_dash c)) [
  | inr other ↦ rw other refl
  | inl mark ↦ elim (Bool-cases (is_plain c)) [
    | inl plain ↦ absurd (let e = not_dash c plain in cc)
    | inr neither ↦ absurd (let h' = rw (neither, mark) at h in ground arith)
  ]
]
without_end-fixed dash (c ▸ d ▸ s) h = elim (Bool-cases (is_plain c)) [
  | inl plain ↦ ap (λ t. c ▸ t) (without_end-fixed false (d ▸ s) (rw plain at h))
  | inr other ↦
      ap (λ t. c ▸ t) (without_end-fixed true (d ▸ s) (let h' = rw other at h in ground arith))
]

is_words_weaken : (s : String) → is_words true s ≡ true → is_words false s ≡ true
unfolding is_words
is_words_weaken ε h = refl
is_words_weaken (c ▸ s) h = elim (Bool-cases (is_plain c)) [
  | inl plain ↦ rw plain (rw plain at h)
  | inr other ↦ absurd (let h' = rw other at h in ground arith)
]

fixed : (s : String) → is_slug s ≡ true → without_end (without_front (dashed false s)) ≡ s
unfolding is_slug dashed without_end
fixed ε h = refl
fixed (c ▸ s) h =
    ap (λ t. without_end (without_front t)) (dashed-fixed false (c ▸ s) (is_words_weaken (c ▸ s) h))
    ∙ ap without_end (without_front-fixed (c ▸ s) h)
    ∙ without_end-fixed true (c ▸ s) h

slugify-is_slug :
    (to_lower : String → String) (name : String) → is_slug (slugify to_lower name) ≡ true
unfolding slugify
slugify-is_slug to_lower name =
    is_slug-of_spaced _ (is_spaced-without_front _ (is_spaced-dashed false (to_lower name)))

-- Where `toLowerCase` leaves a slug as it is, `slugify` makes a slug of every name: words of the letters a to z
-- and digits, joined by single dashes, or nothing. A slug is its own slug.
pub slugify-slugify :
    (to_lower : String → String)
    → ((slug : String) → is_slug slug ≡ true → to_lower slug ≡ slug)
    → (name : String)
    → (is_slug (slugify to_lower name) ≡ true)
      × (slugify to_lower (slugify to_lower name) ≡ slugify to_lower name)
unfolding slugify
slugify-slugify to_lower low name =
    let made = slugify-is_slug to_lower name in (made, rw (low _ made) (fixed _ made))
