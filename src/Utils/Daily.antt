-- ===== src/Utils/Daily.antt =====
-- What the buckets count.
use tbd_dev.Prelude.{
  ℕ, zero, suc, ◌+◌, String, false, List, [], ◌∷◌, ◌≡◌, ◌∙◌, refl, sym, ap, ap₂, arith, ◌==◌, map,
  if◌then◌else◌, Bool-cases, inl, inr, eq_iff, ◌||◌,
}
use tbd_dev.Utils.{Day, increment, empty_day, slice_front, get_deploy_activity}
use tbd_dev.Utils.Buckets.{days_back, count_all, bump_first, bump_last, has_date, IsDistinct}

-- How many of the dates are the day.
unfoldable pub on : String → List String → ℕ
on day [] = 0
on day (d ∷ dates) = let rest = on day dates in if day == d then suc rest else rest

-- Each bucket's date with its count.
abbrev pub counts : {B : Type 0} → (B → String) → (B → ℕ) → List B → List (String × ℕ)
counts date count buckets = map (λ b. (date b, count b)) buckets

has_date-eq :
    {B : Type 0} (date : B → String) (d e : String) (buckets : List B)
    → d ≡ e
    → has_date date d buckets ≡ has_date date e buckets
has_date-eq date d e buckets h = ap (λ k. has_date date k buckets) h

module _ {B : Type 0} (date : B → String) (increment : B → B) (count : B → ℕ)
    (same_date : (b : B) → date (increment b) ≡ date b)
    (one_more : (b : B) → count (increment b) ≡ suc (count b)) where
  has_date-bump_first :
      (e d : String) (buckets : List B)
      → has_date date e (bump_first date increment d buckets) ≡ has_date date e buckets
  unfolding bump_first
  has_date-bump_first e d [] = refl
  has_date-bump_first e d (b ∷ buckets) = elim (Bool-cases (date b == d)) [
    | inl same ↦ rw (same, same_date b) refl
    | inr other ↦ rw other (ap (λ t. (date b == e) || t) (has_date-bump_first e d buckets))
  ]

  IsDistinct-bump_first :
      (d : String) (buckets : List B)
      → IsDistinct date buckets
      → IsDistinct date (bump_first date increment d buckets)
  unfolding bump_first
  IsDistinct-bump_first d [] h = tt
  IsDistinct-bump_first d (b ∷ buckets) (new, h) = elim (Bool-cases (date b == d)) [
    | inl same ↦ rw (same, same_date b) (new, h)
    | inr other ↦
        rw other (has_date-bump_first (date b) d buckets ∙ new, IsDistinct-bump_first d buckets h)
  ]

  bump_first-absent :
      (d : String) (buckets : List B)
      → has_date date d buckets ≡ false
      → bump_first date increment d buckets ≡ buckets
  unfolding bump_first
  bump_first-absent d [] h = refl
  bump_first-absent d (b ∷ buckets) h = elim (Bool-cases (date b == d)) [
    | inl same ↦ absurd (let h' = rw same at h in cc)
    | inr other ↦ rw other (ap (λ t. b ∷ t) (bump_first-absent d buckets (rw other at h)))
  ]

  bump_last-eq-bump_first :
      (d : String) (buckets : List B)
      → IsDistinct date buckets
      → bump_last date increment d buckets ≡ bump_first date increment d buckets
  unfolding bump_first bump_last
  bump_last-eq-bump_first d [] h = refl
  bump_last-eq-bump_first d (b ∷ buckets) (new, h) = elim (Bool-cases (has_date date d buckets)) [
    | inl more ↦ elim (Bool-cases (date b == d)) [
      | inl same ↦
          absurd
            (let e = has_date-eq date (date b) d buckets (ground (arith, eq_iff (date b) d)) in cc)
      | inr other ↦ rw (more, other) (ap (λ t. b ∷ t) (bump_last-eq-bump_first d buckets h))
    ]
    | inr none_left ↦ elim (Bool-cases (date b == d)) [
      | inl same ↦ rw (none_left, same) refl
      | inr other ↦
          rw (none_left, other) (ap (λ t. b ∷ t) (sym (bump_first-absent d buckets none_left)))
    ]
  ]

  count_all-bump_last :
      (dates : List String) (buckets : List B)
      → IsDistinct date buckets
      → count_all (bump_last date increment) dates buckets
        ≡ count_all (bump_first date increment) dates buckets
  unfolding count_all
  count_all-bump_last [] buckets h = refl
  count_all-bump_last (d ∷ dates) buckets h =
      ap (count_all (bump_last date increment) dates) (bump_last-eq-bump_first d buckets h)
      ∙ count_all-bump_last dates (bump_first date increment d buckets)
          (IsDistinct-bump_first d buckets h)

  -- The buckets' dates and counts, with what further dates add.
  abbrev plus : List String → B → String × ℕ
  plus dates b = (date b, count b + on (date b) dates)

  plus-absent :
      (d : String) (dates : List String) (buckets : List B)
      → has_date date d buckets ≡ false
      → map (plus dates) buckets ≡ map (plus (d ∷ dates)) buckets
  unfolding on
  plus-absent d dates [] h = refl
  plus-absent d dates (b ∷ buckets) h = elim (Bool-cases (date b == d)) [
    | inl same ↦ absurd (let h' = rw same at h in cc)
    | inr other ↦
        rw other (ap (λ t. plus dates b ∷ t) (plus-absent d dates buckets (rw other at h)))
  ]

  plus-bump_first :
      (d : String) (dates : List String) (buckets : List B)
      → IsDistinct date buckets
      → map (plus dates) (bump_first date increment d buckets) ≡ map (plus (d ∷ dates)) buckets
  unfolding bump_first on
  plus-bump_first d dates [] h = refl
  plus-bump_first d dates (b ∷ buckets) (new, h) = elim (Bool-cases (date b == d)) [
    | inl same ↦
        let e : date b ≡ d = ground (arith, eq_iff (date b) d) in
        rw (same, same_date b, one_more b)
          (ap₂ (λ n t. (date b, n) ∷ t) (omega arith)
            (plus-absent d dates buckets (has_date-eq date d (date b) buckets (sym e) ∙ new)))
    | inr other ↦ rw other (ap (λ t. plus dates b ∷ t) (plus-bump_first d dates buckets h))
  ]

  count_all_lem :
      (dates : List String) (buckets : List B)
      → IsDistinct date buckets
      → counts date count (count_all (bump_first date increment) dates buckets)
        ≡ map (plus dates) buckets
  unfolding count_all on
  count_all_lem [] buckets h = plus_nothing buckets
    where
      plus_nothing : (bs : List B) → counts date count bs ≡ map (plus []) bs
      plus_nothing [] = refl
      plus_nothing (b ∷ bs) = ap₂ (λ n t. (date b, n) ∷ t) (omega arith) (plus_nothing bs)
  count_all_lem (d ∷ dates) buckets h =
      count_all_lem dates (bump_first date increment d buckets) (IsDistinct-bump_first d buckets h)
      ∙ plus-bump_first d dates buckets h

-- The days of a window, and how many of the dates each of them is.
abbrev pub per_day : List String → List String → List (String × ℕ)
per_day dates days = map (λ day. (day, on day dates)) days

abbrev pub dates_of {ℓ} : {A : Type ℓ} → (A → String) → List A → List String
dates_of created_at deploys = map (λ d. slice_front 10 (created_at d)) deploys

module _ {B : Type 0} (date : B → String) (increment : B → B) (count : B → ℕ)
    (same_date : (b : B) → date (increment b) ≡ date b)
    (one_more : (b : B) → count (increment b) ≡ suc (count b)) (make : ℕ → B) (date_of : ℕ → String)
    (made : (i : ℕ) → date (make i) ≡ date_of i) (empty : (i : ℕ) → count (make i) ≡ 0) where
  has_date-days_back :
      (d : String) (n : ℕ)
      → has_date date d (days_back make n) ≡ has_date (λ s. s) d (days_back date_of n)
  unfolding days_back
  has_date-days_back d zero = refl
  has_date-days_back d (suc i) =
      rw (made i) (ap (λ t. (date_of i == d) || t) (has_date-days_back d i))

  IsDistinct-days_back :
      (n : ℕ) → IsDistinct (λ s. s) (days_back date_of n) → IsDistinct date (days_back make n)
  unfolding days_back
  IsDistinct-days_back zero h = tt
  IsDistinct-days_back (suc i) (new, h) =
      (rw (made i) (has_date-days_back (date_of i) i ∙ new), IsDistinct-days_back i h)

  plus-days_back :
      (dates : List String) (n : ℕ)
      → map (plus date increment count same_date one_more dates) (days_back make n)
        ≡ per_day dates (days_back date_of n)
  unfolding days_back
  plus-days_back dates zero = refl
  plus-days_back dates (suc i) =
      rw (made i, empty i) (ap₂ (λ m t. (date_of i, m) ∷ t) (omega arith) (plus-days_back dates i))

  pub count_all-per_day :
      (dates : List String) (n : ℕ)
      → IsDistinct (λ s. s) (days_back date_of n)
      → (counts date count (count_all (bump_first date increment) dates (days_back make n))
          ≡ per_day dates (days_back date_of n))
        × (counts date count (count_all (bump_last date increment) dates (days_back make n))
            ≡ per_day dates (days_back date_of n))
  count_all-per_day dates n distinct =
      let h = IsDistinct-days_back n distinct in
      let first =
        count_all_lem date increment count same_date one_more dates (days_back make n) h
        ∙ plus-days_back dates n in
      (
        first,
        ap (counts date count) (
              count_all-bump_last date increment count same_date one_more dates (days_back make n)
                h)
            ∙ first,
      )

-- Where the days of the window have different dates, `getDeployActivity` has one bucket for each day, the
-- last of them today, with the number of the deploys that were made on its date.
pub get_deploy_activity_lem {ℓ} :
    {A : Type ℓ} (created_at : A → String) (date_of : ℕ → String) (deploys : List A) (days : ℕ)
    → IsDistinct (λ s. s) (days_back date_of days)
    → counts
        (λ (d : Day). d.date)
        (λ d. d.count)
        (get_deploy_activity created_at date_of deploys days)
      ≡ per_day (dates_of created_at deploys) (days_back date_of days)
unfolding get_deploy_activity
get_deploy_activity_lem created_at date_of deploys days distinct =
    (count_all-per_day (λ (d : Day). d.date) increment (λ d. d.count) (λ d. refl) (λ d. refl)
      (empty_day date_of) date_of (λ i. refl) (λ i. refl) (dates_of created_at deploys) days
      distinct).1
