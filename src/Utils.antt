-- ===== src/Utils.antt =====
-- web/src/lib/utils.ts. JavaScript's `toLowerCase`, the formatting of dates, the clock and the calendar are
-- arguments: `date_of i` is the date of `i` days ago in ISO form.
pub mod Buckets
pub mod Slugs
pub mod Daily
use Prim.Native.Char.{Char, code}
use Prim.Native.String.{[] as ε, ◌∷◌ as ◌▸◌}
use tbd_dev.Prelude.{
  ℕ, zero, suc, ◌+◌, ◌-◌, ◌/◌, String, Bool, true, false, Option, none, some, List, [], ◌∷◌, ◌⧺◌,
  ◌||◌, ◌&&◌, map, eqb, leb, ltb, if◌then◌else◌, truthy_text,
}
use tbd_dev.Utils.Buckets.{days_back, bump_last, count_all}

abbrev dated : (String → String) → String → String
dated to_locale iso = if truthy_text iso then to_locale iso else "—"

unfoldable pub format_date : (String → String) → Option String → String
format_date to_locale none = "—"
format_date to_locale (some iso) = dated to_locale iso

-- The times are in milliseconds. A time still to come counts as now, as a negative number of seconds does.
unfoldable pub time_ago : (ℕ → String) → ℕ → ℕ → String
time_ago print now time =
    let seconds = (now - time) / 1000 in
    let minutes = seconds / 60 in
    let hours = minutes / 60 in
    if ltb seconds 60
    then "just now"
    else if ltb minutes 60
    then print minutes ⧺ "m ago"
    else if ltb hours 24
    then print hours ⧺ "h ago"
    else print (hours / 24) ⧺ "d ago"

-- `[a-z0-9]`
abbrev pub is_plain : Char → Bool
is_plain c = (leb b'a' (code c) && leb (code c) b'z') || (leb b'0' (code c) && leb (code c) b'9')

abbrev pub is_dash : Char → Bool
is_dash c = eqb (code c) b'-'

-- `.replace(/[^a-z0-9]+/g, "-")`: whether the character before belongs to a run that is replaced.
unfoldable pub dashed : Bool → String → String
dashed in_run ε = ε
dashed in_run (c ▸ s) =
    if is_plain c then c ▸ dashed false s else if in_run then dashed true s else "-" ▸ dashed true s

abbrev pub without_front : String → String
without_front ε = ε
without_front (c ▸ s) = if is_dash c then s else c ▸ s

abbrev pub drop_end : Char → String → String
drop_end c ε = if is_dash c then ε else c ▸ ε
drop_end c (d ▸ s) = c ▸ d ▸ s

abbrev pub ended : Char → String → String → String
ended c ε rest = drop_end c ε
ended c (d ▸ s) rest = c ▸ rest

unfoldable pub without_end : String → String
without_end ε = ε
without_end (c ▸ s) = ended c s (without_end s)

unfoldable pub slugify : (String → String) → String → String
unfolding dashed without_end
slugify to_lower name = without_end (without_front (dashed false (to_lower name)))

-- `created_at.slice(0, n)`
unfoldable pub slice_front : ℕ → String → String
slice_front zero s = ε
slice_front (suc n) ε = ε
slice_front (suc n) (c ▸ s) = c ▸ slice_front n s

pub record Day : Type 0 where
  pub date : String
  pub count : ℕ

abbrev pub increment : Day → Day
increment day = record day { count = suc day.count }

abbrev pub empty_day : (ℕ → String) → ℕ → Day
empty_day date_of i = record { date = date_of i; count = 0 }

unfoldable pub get_deploy_activity {ℓ} :
    {A : Type ℓ} → (A → String) → (ℕ → String) → List A → ℕ → List Day
unfolding days_back slice_front count_all bump_last
get_deploy_activity created_at date_of deploys days =
    count_all (bump_last (λ (d : Day). d.date) increment)
      (map (λ d. slice_front 10 (created_at d)) deploys) (days_back (empty_day date_of) days)
