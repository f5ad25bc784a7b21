-- ===== src/Terminal/Commands/Factor/Primes.antt =====
-- What `factor` finds.
use Prim.Native.Nat.{◌∣◌}
use native.Mathlib.Nat
use tbd_dev.Prelude.{
  ℕ, zero, suc, ◌*◌, ◌/◌, ◌%◌, ◌≤◌, ◌<◌, true, false, some, List, [], ◌∷◌, ◌++◌, ◌≡◌, ◌∙◌, refl, ap,
  subst, arith, All, eqb, ltb, leb, ◌&&◌, ◌+◌, Bool-cases, inl, inr, String, truthy_text,
}
use tbd_dev.Terminal.Commands.{ok_lines, result}
use tbd_dev.Terminal.Commands.Factor.{
  Numeral, natural, pushed, divide, factor_from, factors, factor_line, factor,
}

-- No number from 2 below the bound divides the value.
NoneBelow : ℕ → ℕ → Type 0
NoneBelow bound value = (m : ℕ) → 1 < m → m < bound → ¬ (m ∣ value)

abbrev pub IsPrime : ℕ → Type 0
unfolding NoneBelow
IsPrime p = (1 < p) × NoneBelow p p

abbrev pub product : List ℕ → ℕ
product [] = 1
product (x ∷ xs) = x * product xs

abbrev pub IsAscending : List ℕ → Type 0
IsAscending [] = Unit
IsAscending (x ∷ xs) = All (λ y. x ≤ y) xs × IsAscending xs

-- The value's prime factors in ascending order, none below the bound.
abbrev pub IsFactored : ℕ → ℕ → List ℕ → Type 0
IsFactored bound value found =
    (product found ≡ value) × All IsPrime found × IsAscending found × All (λ y. bound ≤ y) found

prime : (d v : ℕ) → 1 < d → d ∣ v → NoneBelow d v → IsPrime d
unfolding NoneBelow
prime d v lt here none_below =
    (lt, λ m big small at. none_below m big small (Nat.dvd_trans m at here))

NoneBelow-dvd : (d v w : ℕ) → w ∣ v → NoneBelow d v → NoneBelow d w
unfolding NoneBelow
NoneBelow-dvd d v w at none_below m big small here =
    none_below m big small (Nat.dvd_trans m here at)

NoneBelow-suc : (d v : ℕ) → ¬ (d ∣ v) → NoneBelow d v → NoneBelow (suc d) v
unfolding NoneBelow
NoneBelow-suc d v away none_below m big small here = elim (Bool-cases (eqb m d)) [
  | inl same ↦ away (subst (λ k. k ∣ v) (ground arith) here)
  | inr other ↦ none_below m big (ground arith) here
]

module _ (d v : ℕ) (lt : 1 < d) (pos : 0 < v) (whole : v % d ≡ 0) where
  quotient : d * (v / d) ≡ v
  quotient = Nat.mul-div_cancel' d (Nat.dvd_of_mod-eq-zero d whole)

  quotient_pos : 0 < v / d
  quotient_pos = positive (v / d) quotient
    where
      positive : (q : ℕ) → d * q ≡ v → 0 < q
      positive zero e = absurd (omega arith)
      positive (suc q) e = omega arith

  quotient_lt : v / d < v
  quotient_lt = Nat.div-lt_self pos lt

  quotient_dvd : v / d ∣ v
  quotient_dvd = subst (λ k. v / d ∣ k) quotient (Nat.dvd-mul_left (v / d) d)

-- What the inner loop promises of its divisors and of the value it leaves.
Divided : ℕ → ℕ → List ℕ × ℕ → Type 0
Divided d v (found, w) =
    (0 < w)
    × (w ≤ v)
    × NoneBelow (suc d) w
    × ((rest : List ℕ) → IsFactored (suc d) w rest → IsFactored d v (found ++ rest))

All-weaken : (d : ℕ) (xs : List ℕ) → All (λ y. suc d ≤ y) xs → All (λ y. d ≤ y) xs
All-weaken d [] h = tt
All-weaken d (x ∷ xs) (p, h) = (omega arith, All-weaken d xs h)

IsFactored-weaken : (d v : ℕ) (found : List ℕ) → IsFactored (suc d) v found → IsFactored d v found
IsFactored-weaken d v found (e, primes, up, above) = (e, primes, up, All-weaken d found above)

Divided-again :
    (d v : ℕ) (found : List ℕ) (w : ℕ)
    → 1 < d
    → 0 < v
    → v % d ≡ 0
    → NoneBelow d v
    → Divided d (v / d) (found, w)
    → Divided d v (d ∷ found, w)
unfolding Divided
Divided-again d v found w lt pos whole none_below (w_pos, le, after, finish) =
    let smaller = quotient_lt d v lt pos whole in
    (
      w_pos,
      omega arith,
      after,
      λ rest h.
          let (prod, primes, up, above) = finish rest h in
          (
            ap (λ k. d * k) prod ∙ quotient d v lt pos whole,
            (prime d v lt (Nat.dvd_of_mod-eq-zero d whole) none_below, primes),
            (above, up),
            (Nat.le_refl d, above),
          ),
    )

divide-whole :
    (fuel d v : ℕ) → eqb (v % d) 0 ≡ true → divide (suc fuel) d v ≡ pushed d (divide fuel d (v / d))
unfolding divide
divide-whole fuel d v same = rw same refl

divide-broken : (fuel d v : ℕ) → eqb (v % d) 0 ≡ false → divide (suc fuel) d v ≡ some ([], v)
unfolding divide
divide-broken fuel d v broken = rw broken refl

divide_lem :
    (fuel d v : ℕ)
    → 1 < d
    → 0 < v
    → v ≤ fuel
    → NoneBelow d v
    → (r : List ℕ × ℕ) × (divide (suc fuel) d v ≡ some r) × Divided d v r
unfolding Divided
divide_lem zero d v lt pos enough none_below = absurd (omega arith)
divide_lem (suc fuel) d v lt pos enough none_below = elim (Bool-cases (eqb (v % d) 0)) [
  | inr broken ↦ (
    ([], v),
    divide-broken (suc fuel) d v broken,
    (
      pos,
      Nat.le_refl v,
      NoneBelow-suc d v (λ at. let e = Nat.mod-eq-zero_of_dvd d at in ground arith) none_below,
      IsFactored-weaken d v,
    ),
  )
  | inl same ↦
      let whole : v % d ≡ 0 = ground arith in
      let smaller = quotient_lt d v lt pos whole in
      let ((found, w), e, done) =
        divide_lem fuel d (v / d) lt (quotient_pos d v lt pos whole) (omega arith)
          (NoneBelow-dvd d v (v / d) (quotient_dvd d v lt pos whole) none_below) in
      (
        (d ∷ found, w),
        divide-whole (suc fuel) d v same ∙ ap (pushed d) e,
        Divided-again d v found w lt pos whole none_below done,
      )
]

append-joined :
    (fuel d v w : ℕ) (found rest : List ℕ)
    → 1 < v
    → d ≤ v
    → divide (suc v) d v ≡ some (found, w)
    → factor_from fuel (suc d) w ≡ some rest
    → factor_from (suc fuel) d v ≡ some (found ++ rest)
unfolding factor_from
append-joined fuel d v w found rest big le e k =
    let t1 : ltb 1 v ≡ true = ground arith in
    let t2 : leb d v ≡ true = ground arith in rw (t1, t2, e, k) refl

factor_from-done :
    (fuel d v : ℕ) → ltb 1 v && leb d v ≡ false → factor_from (suc fuel) d v ≡ some []
unfolding factor_from
factor_from-done fuel d v stop = rw stop refl

stopped :
    (fuel d v : ℕ)
    → 0 < v
    → NoneBelow d v
    → ltb 1 v && leb d v ≡ false
    → (found : List ℕ) × (factor_from (suc fuel) d v ≡ some found) × IsFactored d v found
unfolding NoneBelow
stopped fuel d v pos none_below stop = (
  [],
  factor_from-done fuel d v stop,
  elim (Bool-cases (ltb 1 v)) [
    | inl big ↦ absurd (none_below v (ground arith) (ground arith) (Nat.dvd_refl v))
    | inr small ↦ (ground arith, tt, tt, tt)
  ],
)

-- The rounds left are enough.
factor_from_lem :
    (fuel d v : ℕ)
    → 1 < d
    → 0 < v
    → v < d + fuel
    → NoneBelow d v
    → (found : List ℕ) × (factor_from (suc fuel) d v ≡ some found) × IsFactored d v found
unfolding Divided
factor_from_lem zero d v lt pos enough none_below = stopped zero d v pos none_below (ground arith)
factor_from_lem (suc fuel) d v lt pos enough none_below = elim (Bool-cases (ltb 1 v && leb d v)) [
  | inr stop ↦ stopped (suc fuel) d v pos none_below stop
  | inl go ↦
      let big : 1 < v = ground arith in
      let le : d ≤ v = ground arith in
      let ((found, w), e, (w_pos, w_le, after, finish)) =
        divide_lem v d v lt pos (Nat.le_refl v) none_below in
      let (rest, k, factored) =
        factor_from_lem fuel (suc d) w (omega arith) w_pos (omega arith) after in
      (found ++ rest, append-joined (suc fuel) d v w found rest big le e k, finish rest factored)
]

-- The loops of `factor` end for a number from 1, with its prime factors, the smaller first.
factors_lem : (n : ℕ) → 0 < n → (found : List ℕ) × (factors n ≡ some found) × IsFactored 2 n found
unfolding factors NoneBelow
factors_lem n pos =
    factor_from_lem n 2 n (omega arith) pos (omega arith) (λ m big small at. omega arith)

module _ (number : String → Numeral) (print : ℕ → String) where
  -- For an argument that is a whole number from 1, `factor` ends: it prints one line, of primes in ascending
  -- order whose product is the number, and succeeds.
  pub factor_lem :
      (arg cwd : String) (args : List String) (n : ℕ)
      → truthy_text arg ≡ true
      → number arg ≡ natural n
      → 0 < n
      → (found : List ℕ) × (factor number print (arg ∷ args) cwd
          ≡ some (result cwd 0 (ok_lines (factor_line print n found ∷ []))))
        × IsFactored 2 n found
  unfolding factor
  factor_lem arg cwd args n given is pos =
      let (found, e, factored) = factors_lem n pos in (found, rw (given, is, e) refl, factored)
