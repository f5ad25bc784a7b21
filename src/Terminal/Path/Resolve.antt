-- ===== src/Terminal/Path/Resolve.antt =====
-- What `resolvePath` returns.
use Prim.Native.String.{◌∷◌ as ◌▸◌}
use text.Mathlib.TextLemmas.{nil-append, cons-append}
use mathlib.Core.List.{reverse, reverse_aux, reverse_aux-reverse_aux-nil}
use tbd_dev.Prelude.{
  String, false, List, [], ◌∷◌, ◌++◌, ◌≡◌, ◌≢◌, ◌∙◌, ◌⊎◌, refl, ap, sym, subst, not, ◌||◌, arith,
  truthy_text, ◌==◌, eq_iff, All, All-append, Bool-cases, Option-cases, inl, inr,
}
use tbd_dev.Terminal.Path.{
  split_path, strip, join, pop, resolve_step, resolve_parts, target_parts, rooted, resolve_path,
}
use tbd_dev.Terminal.Path.Split.{IsPart, split_path-IsPart, split_path-join}

-- A part of a path that names a directory entry.
abbrev pub IsName : String → Type 0
IsName p = IsPart p × (p ≢ ".") × (p ≢ "..") × (p ≢ "~")

-- A path from the home directory down, with nothing to resolve in it.
abbrev pub IsCanonical : String → Type 0
IsCanonical path = (names : List String) × (path ≡ join ("~" ∷ names)) × All IsName names

tilde-IsPart : IsPart "~"
tilde-IsPart = (refl, (omega arith, tt))

-- The parts that the loop holds: names, and perhaps the home directory below them all.
abbrev IsStack : List String → Type 0
IsStack [] = Unit
IsStack (p ∷ st) = (IsName p × IsStack st) ⊎ ((p ≡ "~") × (st ≡ []))

pop-IsStack : (st : List String) → IsStack st → IsStack (pop st)
unfolding pop
pop-IsStack [] h = tt
pop-IsStack (x ∷ []) h = h
pop-IsStack (x ∷ y ∷ rest) (inl (name, below)) = below
pop-IsStack (x ∷ y ∷ rest) (inr (home, none_below)) = cc

not_equal : {p q : String} → (p == q) ≡ false → p ≢ q
not_equal {p} {q} h e = ground (arith, eq_iff p q)

resolve_step-IsStack :
    (st : List String) (p : String) → IsPart p → IsStack st → IsStack (resolve_step st p)
unfolding resolve_step
resolve_step-IsStack st p part h = elim (Bool-cases (p == ".")) [
  | inl here ↦ rw here h
  | inr a ↦ rw a (elim (Bool-cases (p == "..")) [
    | inl up ↦ rw up (pop-IsStack st h)
    | inr b ↦ rw b (elim (Bool-cases (p == "~")) [
      | inl home ↦ rw home (inr (refl, refl))
      | inr c ↦ rw c (inl ((part, not_equal a, not_equal b, not_equal c), h))
    ])
  ])
]

resolve_parts-IsStack :
    (st parts : List String) → All IsPart parts → IsStack st → IsStack (resolve_parts st parts)
unfolding resolve_parts
resolve_parts-IsStack st [] _ h = h
resolve_parts-IsStack st (p ∷ parts) (part, all) h =
    resolve_parts-IsStack (resolve_step st p) parts all (resolve_step-IsStack st p part h)

-- The stack, reversed in front of names and rooted, is the home directory and names.
stack_names :
    (st acc : List String)
    → IsStack st
    → All IsName acc
    → (names : List String) × (rooted (reverse_aux st acc) ≡ "~" ∷ names) × All IsName names
unfolding rooted
stack_names [] [] h all = ([], refl, tt)
stack_names [] (p ∷ acc) h ((part, a, b, c), all) =
    (p ∷ acc, ground (arith, eq_iff p "~"), ((part, a, b, c), all))
stack_names (p ∷ st) acc (inl (name, below)) all = stack_names st (p ∷ acc) below (name, all)
stack_names (p ∷ st) acc (inr (home, none_below)) all = (acc, rw (none_below, home) refl, all)

target_parts_cases :
    (cwd target : String)
    → ((rest : String) × (target_parts cwd target ≡ "~" ∷ split_path rest))
      ⊎ (target_parts cwd target ≡ split_path cwd ++ split_path target)
unfolding target_parts
target_parts_cases cwd target = elim (Option-cases (strip "~/" target)) [
  | inr (rest, e) ↦ inl (rest, rw (e, target_parts))
  | inl a ↦ elim (Option-cases (strip "/" target)) [
    | inr (rest, e) ↦ inl (rest, rw (a, target_parts) (rw e))
    | inl b ↦ inr (rw (a, target_parts) (rw b))
  ]
]

target_parts-IsPart : (cwd target : String) → All IsPart (target_parts cwd target)
target_parts-IsPart cwd target = elim (target_parts_cases cwd target) [
  | inl (rest, e) ↦ subst (All IsPart) (sym e) (tilde-IsPart, split_path-IsPart rest)
  | inr e ↦ subst (All IsPart) (sym e) (
      All-append IsPart (split_path cwd) (split_path target) (split_path-IsPart cwd)
        (split_path-IsPart target))
]

home-IsCanonical : IsCanonical "~"
unfolding join
home-IsCanonical = ([], refl, tt)

walked-IsCanonical :
    (cwd target : String)
    → IsCanonical (join (rooted (reverse (resolve_parts [] (target_parts cwd target)))))
walked-IsCanonical cwd target =
    let (names, e, all) =
      stack_names (resolve_parts [] (target_parts cwd target)) []
        (resolve_parts-IsStack [] (target_parts cwd target) (target_parts-IsPart cwd target) tt)
        tt in
    (names, ap join e, all)

-- Whatever the current directory and the target, the result is a path from the home directory down
-- whose further parts are proper names: not empty, without a slash, and none of ".", ".." and "~".
pub resolve_path-IsCanonical : (cwd target : String) → IsCanonical (resolve_path cwd target)
unfolding resolve_path
resolve_path-IsCanonical cwd target =
    elim (Bool-cases (not (truthy_text target) || target == "~")) [
      | inl home ↦ rw (home, resolve_path) home-IsCanonical
      | inr a ↦
          rw (a, resolve_path)
            (elim (Bool-cases (target == "/")) [
              | inl root ↦ rw root home-IsCanonical
              | inr b ↦ rw b (walked-IsCanonical cwd target)
            ])
    ]

resolve_step_name : (st : List String) (p : String) → IsName p → resolve_step st p ≡ p ∷ st
unfolding resolve_step
resolve_step_name st p (part, a, b, c) = ground (arith, eq_iff p ".", eq_iff p "..", eq_iff p "~")

resolve_parts_names :
    (st names : List String) → All IsName names → resolve_parts st names ≡ reverse_aux names st
unfolding resolve_parts
resolve_parts_names st [] _ = refl
resolve_parts_names st (p ∷ names) (name, all) =
    ap (λ stack. resolve_parts stack names) (resolve_step_name st p name)
    ∙ resolve_parts_names (p ∷ st) names all

names_parts : (names : List String) → All IsName names → All IsPart names
names_parts [] _ = tt
names_parts (p ∷ names) ((part, _, _, _), all) = (part, names_parts names all)

join_deep : (n : String) (ns : List String) → join ("~" ∷ n ∷ ns) ≡ "~" ▸ "/" ▸ join (n ∷ ns)
unfolding join
join_deep n ns = rw (cons-append, nil-append, cons-append, nil-append)

-- The target "~/…" of names is walked to itself.
walk_names :
    (cwd rest : String) (names : List String)
    → split_path rest ≡ names
    → All IsName names
    → rooted (reverse (resolve_parts [] (target_parts cwd ("~" ▸ "/" ▸ rest)))) ≡ "~" ∷ names
unfolding target_parts rooted resolve_parts
walk_names cwd rest names e all =
    ap (λ (parts : List String). rooted (reverse (resolve_parts ("~" ∷ []) parts))) e
    ∙ ap (λ (stack : List String). rooted (reverse stack))
        (resolve_parts_names ("~" ∷ []) names all)
    ∙ ap rooted (reverse_aux-reverse_aux-nil names ("~" ∷ []))

resolve_path_deep :
    (cwd rest : String)
    → resolve_path cwd ("~" ▸ "/" ▸ rest)
      ≡ join (rooted (reverse (resolve_parts [] (target_parts cwd ("~" ▸ "/" ▸ rest)))))
unfolding resolve_path join
resolve_path_deep cwd rest = rw (resolve_path, deep-ne "~" (λ e. cc), deep-ne "/" (λ e. cc)) refl
  where
    deep-ne : (s : String) → ("~" ▸ "/" ▸ rest) ≢ s → (("~" ▸ "/" ▸ rest) == s) ≡ false
    deep-ne s n = ground (arith, eq_iff ("~" ▸ "/" ▸ rest) s)

-- A canonical path is absolute: it resolves to itself from every directory.
pub resolve_path_fixed : (cwd path : String) → IsCanonical path → resolve_path cwd path ≡ path
resolve_path_fixed cwd path ([], e, _) = rw e (unfold resolve_path join in refl)
resolve_path_fixed cwd path (n ∷ ns, e, all) =
    rw (e, join_deep n ns)
      (resolve_path_deep cwd (join (n ∷ ns))
        ∙ ap join (
            walk_names cwd (join (n ∷ ns)) (n ∷ ns)
              (split_path-join (n ∷ ns) (names_parts (n ∷ ns) all)) all)
        ∙ join_deep n ns)

-- Resolving the result of a resolution again, from any directory, changes nothing.
pub resolve_path_idempotent :
    (cwd other target : String)
    → resolve_path other (resolve_path cwd target) ≡ resolve_path cwd target
resolve_path_idempotent cwd other target =
    resolve_path_fixed other (resolve_path cwd target) (resolve_path-IsCanonical cwd target)

-- The parts of a resolved path begin at the home directory, and the further ones are names.
pub split_path-resolve_path :
    (cwd target : String)
    → (names : List String) × (split_path (resolve_path cwd target) ≡ "~" ∷ names)
      × All IsName names
split_path-resolve_path cwd target =
    let (names, e, all) = resolve_path-IsCanonical cwd target in
    (
      names,
      ap split_path e ∙ split_path-join ("~" ∷ names) (tilde-IsPart, names_parts names all),
      all,
    )
