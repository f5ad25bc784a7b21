-- ===== src/Examples/UtilsExamples.antt =====
-- The theorems about slugs and activity, applied.
use tbd_dev.Prelude.{ℕ, zero, suc, String, true, false, none, List, [], ◌∷◌, ◌≡◌, refl}
use tbd_dev.Types.Deploys.{Deploy, healthy}
use tbd_dev.Utils.{Day, slugify, get_deploy_activity}
use tbd_dev.Utils.Buckets.{days_back}
use tbd_dev.Utils.Slugs.{is_slug, slugify-slugify}
use tbd_dev.Utils.Daily.{counts, per_day, dates_of}
use tbd_dev.ProjectPage.Overview.{Bucket, Calendar, get_activity_data}
use tbd_dev.ProjectPage.Overview.Activity.{get_activity_data-get_deploy_activity}

slugify-slugify_example :
    (is_slug (slugify (λ s. s) "my  app (2)!") ≡ true)
    × (slugify (λ s. s) (slugify (λ s. s) "my  app (2)!") ≡ slugify (λ s. s) "my  app (2)!")
slugify-slugify_example = slugify-slugify (λ s. s) (λ slug h. refl) "my  app (2)!"

abbrev march : ℕ → String
march zero = "2026-03-02"
march (suc i) = "2026-03-01"

abbrev calendar : Calendar
calendar = record { weekday = λ i. "Mon"; month_day = λ i. "Mar 1"; date_of = march }

abbrev deploy_at : String → Deploy
deploy_at created_at = record {
  id = "d1";
  env_id = "e1";
  artifact_id = none;
  build_id = none;
  commit_sha = none;
  status = healthy;
  url = none;
  created_at = created_at;
  promoted_at = none;
  is_production = false;
  container_ip = none;
  container_vmid = none;
}

abbrev deploys : List Deploy
deploys = deploy_at "2026-03-01T08:00:00Z" ∷ deploy_at "2026-02-11T08:00:00Z" ∷ []

get_activity_data-get_deploy_activity_example :
    (counts (λ (b : Bucket). b.date) (λ b. b.count) (get_activity_data calendar deploys 2)
      ≡ per_day (dates_of (λ (d : Deploy). d.created_at) deploys) (days_back march 2))
    × (counts (λ (b : Bucket). b.date) (λ b. b.count) (get_activity_data calendar deploys 2)
        ≡ counts
            (λ (d : Day). d.date)
            (λ d. d.count)
            (get_deploy_activity (λ (d : Deploy). d.created_at) march deploys 2))
unfolding days_back
get_activity_data-get_deploy_activity_example =
    get_activity_data-get_deploy_activity calendar deploys 2 (refl, (refl, tt))
