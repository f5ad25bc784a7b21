-- ===== src/ProjectPage/Overview.antt =====
-- web/src/app/dashboard/[projectId]/page.tsx, the overview tab: `useProjectStats`, `formatDurationMs`,
-- `getActivityData` and the deploy that is featured. Times in milliseconds, the rounded percentage, the
-- decimal text of a number and the calendar are arguments.
pub mod Activity
use tbd_dev.Prelude.{
  ℕ, zero, suc, ◌+◌, ◌-◌, ◌/◌, ◌%◌, String, Bool, true, false, Option, none, some, List, [], ◌∷◌,
  ◌⧺◌, ◌||◌, ◌&&◌, ◌==◌, map, ltb, eqb, if◌then◌else◌, filterb, find, take, length, truthy,
  get_elem?,
}
use tbd_dev.Types.Projects.{Environment, EnvType, production}
use tbd_dev.Types.Deploys.{Build, Deploy, DeployStatus, active, healthy, failed}
use tbd_dev.Utils.{slice_front}
use tbd_dev.Utils.Buckets.{days_back, bump_first, count_all}

-- `formatDurationMs` of a sum of milliseconds divided by how many there are.
unfoldable pub format_duration_ms : (ℕ → String) → ℕ → ℕ → String
format_duration_ms print total count =
    let secs = total / count / 1000 in
    if eqb total 0
    then "—"
    else if ltb secs 60
    then print secs ⧺ "s"
    else print (secs / 60) ⧺ "m " ⧺ print (secs % 60) ⧺ "s"

abbrev is_successful : Build → Bool
is_successful b =
    b.status == "success"
    || b.status == "active"
    || b.status == "healthy"
    || b.status == "artifact_ready"

abbrev is_completed : Build → Bool
is_completed b = truthy b.started_at && truthy b.finished_at

abbrev is_failed : DeployStatus → Bool
is_failed failed = true
is_failed _ = false

abbrev is_live : DeployStatus → Bool
is_live active = true
is_live healthy = true
is_live _ = false

abbrev at_time : (String → ℕ) → Option String → ℕ
at_time time none = 0
at_time time (some iso) = time iso

unfoldable pub total_time : (Build → ℕ) → List Build → ℕ
total_time time [] = 0
total_time time (b ∷ builds) = time b + total_time time builds

pub record ProjectStats : Type 0 where
  pub total_deploys : ℕ
  pub total_builds : ℕ
  pub success_rate : ℕ
  pub avg_build_time : String
  pub failed_deploys : ℕ

module _ (print : ℕ → String) (percent : ℕ → ℕ → ℕ) (time : String → ℕ) where
  -- The sum of the differences; one below 0 prints as 0 does.
  abbrev elapsed : List Build → ℕ
  elapsed completed =
      total_time (λ b. at_time time b.finished_at) completed
      - total_time (λ b. at_time time b.started_at) completed

  unfoldable pub use_project_stats : List Build → List Deploy → ProjectStats
  unfolding format_duration_ms total_time
  use_project_stats builds deploys =
      let total = length builds in
      let successful = length (filterb is_successful builds) in
      let completed = filterb is_completed builds in
      record {
        total_deploys = length deploys;
        total_builds = total;
        success_rate = if ltb 0 total then percent successful total else 0;
        avg_build_time =
            if ltb 0 (length completed)
            then format_duration_ms print (elapsed completed) (length completed)
            else format_duration_ms print 0 1;
        failed_deploys = length (filterb (λ (d : Deploy). is_failed d.status) deploys);
      }

pub record Bucket : Type 0 where
  pub label : String
  pub count : ℕ
  pub date : String

-- The short names of the day and of the date of `i` days ago, and the date in ISO form.
pub record Calendar : Type 0 where
  pub weekday : ℕ → String
  pub month_day : ℕ → String
  pub date_of : ℕ → String

abbrev pub increment : Bucket → Bucket
increment bucket = record bucket { count = suc bucket.count }

abbrev pub empty_bucket : Calendar → ℕ → Bucket
empty_bucket calendar i = record {
  label = if ltb i 7 then calendar.weekday i else calendar.month_day i;
  count = 0;
  date = calendar.date_of i;
}

unfoldable pub get_activity_data : Calendar → List Deploy → ℕ → List Bucket
unfolding days_back slice_front count_all bump_first
get_activity_data calendar deploys days =
    count_all (bump_first (λ (b : Bucket). b.date) increment)
      (map (λ (d : Deploy). slice_front 10 d.created_at) deploys)
      (days_back (empty_bucket calendar) days)

abbrev is_production : EnvType → Bool
is_production production = true
is_production _ = false

abbrev deployed_in : Option Environment → List Deploy → Option Deploy
deployed_in none deploys = none
deployed_in (some env) deploys = find (λ (d : Deploy). d.env_id == env.id) deploys

abbrev or_other : Option Deploy → Option Deploy → Option Deploy
or_other none other = other
or_other (some d) other = some d

-- The latest deploy of production, else the latest that runs, else the latest.
unfoldable pub featured_deploy : List Environment → List Deploy → Option Deploy
featured_deploy environments deploys =
    or_other (deployed_in (find (λ (e : Environment). is_production e.type) environments) deploys)
      (or_other (find (λ (d : Deploy). is_live d.status) deploys) (get_elem? deploys 0))

-- `deploys.slice(0, 5)`, and the builds likewise
unfoldable pub recent {ℓ} : {A : Type ℓ} → List A → List A
recent items = take 5 items
