-- ===== src/Examples/Data.antt =====
-- Users, a project, a build and the page's answers for the examples.
use tbd_dev.Prelude.{true, false, none, [], ◌∷◌}
use tbd_dev.Types.Accounts.{UserInfo, Role, jas_staff, TokenResponse}
use tbd_dev.Types.Projects.{Project}
use tbd_dev.Types.Deploys.{Build}
use tbd_dev.ProjectPage.{Snapshot}

abbrev pub user_of : Role → UserInfo
user_of role = record {
  id = "u1";
  username = "ada";
  display_name = "Ada";
  email = "ada@example.edu";
  role = role;
  github_username = none;
  created_at = "2025-01-01T00:00:00Z";
}

abbrev pub ada : UserInfo
ada = user_of jas_staff

abbrev pub issued_token : TokenResponse
issued_token = record { access_token = "jwt"; token_type = "bearer"; expires_in = 3600 }

abbrev pub queued_build : Build
queued_build = record {
  id = "b1";
  project_id = "p1";
  commit_sha = "c0ffee";
  image_ref = none;
  status = "queued";
  trigger = "manual";
  branch = none;
  started_at = none;
  finished_at = none;
}

abbrev pub site : Project
site = record {
  id = "p1";
  name = "Site";
  slug = "site";
  repo_url = none;
  owner_id = "u1";
  default_env = "production";
  auto_deploy = true;
  framework = none;
  root_directory = none;
  build_command = none;
  install_command = none;
  output_directory = none;
  health_check_path = none;
  health_check_timeout = none;
  webhook_url = none;
  deploy_locked = false;
  expires_at = none;
  production_url = none;
  custom_subdomain = none;
  repo = none;
  created_at = "2025-01-01T00:00:00Z";
}

-- An answer that shows a queued build.
abbrev pub busy_answer : Snapshot
busy_answer = record { project = site; environments = []; builds = queued_build ∷ []; deploys = [] }
