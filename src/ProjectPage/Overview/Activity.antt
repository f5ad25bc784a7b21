-- ===== src/ProjectPage/Overview/Activity.antt =====
-- The activity that the overview of a project and its card on the dashboard show.
use tbd_dev.Prelude.{ℕ, List, ◌≡◌, ◌∙◌, refl, sym}
use tbd_dev.Types.Deploys.{Deploy}
use tbd_dev.Utils.{Day, get_deploy_activity}
use tbd_dev.Utils.Buckets.{days_back, IsDistinct}
use tbd_dev.Utils.Daily.{counts, per_day, dates_of, count_all-per_day, get_deploy_activity_lem}
use tbd_dev.ProjectPage.Overview.{Bucket, Calendar, increment, empty_bucket, get_activity_data}

-- Where the days of the window have different dates, `getActivityData` has one bucket for each day with the
-- number of the deploys made on its date, and `getDeployActivity` counts the same for the same days.
pub get_activity_data-get_deploy_activity :
    (calendar : Calendar) (deploys : List Deploy) (days : ℕ)
    → IsDistinct (λ s. s) (days_back calendar.date_of days)
    → (counts (λ (b : Bucket). b.date) (λ b. b.count) (get_activity_data calendar deploys days)
        ≡ per_day
            (dates_of (λ (d : Deploy). d.created_at) deploys)
            (days_back calendar.date_of days))
      × (counts (λ (b : Bucket). b.date) (λ b. b.count) (get_activity_data calendar deploys days)
          ≡ counts
              (λ (d : Day). d.date)
              (λ d. d.count)
              (get_deploy_activity (λ (d : Deploy). d.created_at) calendar.date_of deploys days))
unfolding get_activity_data
get_activity_data-get_deploy_activity calendar deploys days distinct =
    let h =
      (count_all-per_day (λ (b : Bucket). b.date) increment (λ b. b.count) (λ b. refl) (λ b. refl)
        (empty_bucket calendar) calendar.date_of (λ i. refl) (λ i. refl)
        (dates_of (λ (d : Deploy). d.created_at) deploys) days distinct).0 in
    (
      h,
      h
          ∙ sym (
              get_deploy_activity_lem (λ (d : Deploy). d.created_at) calendar.date_of deploys days
                distinct),
    )
