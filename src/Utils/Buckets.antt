-- ===== src/Utils/Buckets.antt =====
-- web/src/lib/utils.ts, `getDeployActivity`, and web/src/app/dashboard/[projectId]/page.tsx,
-- `getActivityData`: the buckets that deploys are counted in, one for each day.
use tbd_dev.Prelude.{
  ℕ, zero, suc, String, Bool, false, List, [], ◌∷◌, ◌≡◌, ◌==◌, any, if◌then◌else◌,
}

-- The loop over the deploys: their dates, in order.
unfoldable pub count_all : {B : Type 0} → (String → List B → List B) → List String → List B → List B
count_all bump [] buckets = buckets
count_all bump (d ∷ dates) buckets = count_all bump dates (bump d buckets)

-- `for (let i = days - 1; i >= 0; i--)`: what is made of each `i`, in this order.
unfoldable pub days_back : {B : Type 0} → (ℕ → B) → ℕ → List B
days_back make zero = []
days_back make (suc i) = make i ∷ days_back make i

module _ {B : Type 0} (date : B → String) where
  abbrev pub has_date : String → List B → Bool
  has_date d buckets = any (λ b. date b == d) buckets

  abbrev pub IsDistinct : List B → Type 0
  IsDistinct [] = Unit
  IsDistinct (b ∷ buckets) = (has_date (date b) buckets ≡ false) × IsDistinct buckets

module _ {B : Type 0} (date : B → String) (increment : B → B) where
  -- `buckets.find((b) => b.date === d)` counted up
  unfoldable pub bump_first : String → List B → List B
  bump_first d [] = []
  bump_first d (b ∷ buckets) =
      let rest = bump_first d buckets in if date b == d then increment b ∷ buckets else b ∷ rest

  -- `bucketMap[d]` counted up: the bucket that was entered last under the date
  unfoldable pub bump_last : String → List B → List B
  bump_last d [] = []
  bump_last d (b ∷ buckets) =
      let rest = bump_last d buckets in
      if has_date date d buckets
      then b ∷ rest
      else if date b == d
      then increment b ∷ buckets
      else b ∷ buckets
