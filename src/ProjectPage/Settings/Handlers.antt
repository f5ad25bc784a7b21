-- ===== src/ProjectPage/Settings/Handlers.antt =====
-- web/src/app/dashboard/[projectId]/page.tsx, `SettingsTab`: the handlers, each cut at its request. The
-- Boolean of a `finish` says whether `onUpdate` is called.
use tbd_dev.Prelude.{
  String, Bool, true, false, Option, none, some, not, if◌then◌else◌, or_else, truthy_text,
}
use tbd_dev.Types.Projects.{Project, ProjectUpdate}
use tbd_dev.Client.{str, Reply, ok, api_error, failed}
use tbd_dev.ProjectPage.Settings.{Texts, SettingsTab, or_null}

-- A body that names nothing.
abbrev pub no_update : ProjectUpdate
no_update = record {
  name = none;
  repo_url = none;
  default_env = none;
  auto_deploy = none;
  framework = none;
  root_directory = none;
  build_command = none;
  install_command = none;
  output_directory = none;
  health_check_path = none;
  health_check_timeout = none;
  webhook_url = none;
  deploy_locked = none;
  expires_at = none;
  custom_subdomain = none;
}

-- `handleSaveDomain`
unfoldable pub domain_body : Texts → SettingsTab → ProjectUpdate
domain_body js t = record no_update {
  custom_subdomain = some (or_null (js.to_lower (js.trim t.subdomain)));
}

unfoldable pub start_save_domain : SettingsTab → SettingsTab
start_save_domain t = record t { saving_domain = true; message = str "" }

unfoldable pub finish_save_domain : Reply Project → SettingsTab → SettingsTab × Bool
finish_save_domain (ok p) t = (
  record t {
    subdomain = or_else p.custom_subdomain p.slug;
    message = str "Production subdomain saved. The production route has been updated.";
    saving_domain = false;
  },
  true,
)
finish_save_domain (api_error status detail) t =
    (record t { message = detail; saving_domain = false }, false)
finish_save_domain failed t = (
  record t { message = str "Failed to save production subdomain."; saving_domain = false },
  false,
)

-- `handleToggleAutoDeploy`; the new value is the closure's `newValue`.
unfoldable pub start_toggle_auto_deploy : SettingsTab → SettingsTab × Bool
start_toggle_auto_deploy t = (
  record t { auto_deploy = not t.auto_deploy; saving = true; message = str "" },
  not t.auto_deploy,
)

unfoldable pub auto_deploy_body : Bool → ProjectUpdate
auto_deploy_body new_value = record no_update { auto_deploy = some (some new_value) }

unfoldable pub finish_toggle_auto_deploy : Bool → Reply Project → SettingsTab → SettingsTab × Bool
finish_toggle_auto_deploy new_value (ok p) t = (
  record t {
    message =
        if new_value
        then str "Auto-deploy enabled. Pushes will trigger builds automatically."
        else str "Auto-deploy disabled.";
    saving = false;
  },
  true,
)
finish_toggle_auto_deploy new_value _ t = (
  record t {
    auto_deploy = not new_value;
    message = str "Failed to update setting.";
    saving = false;
  },
  false,
)

-- `handleSaveBuildSettings`
unfoldable pub build_body : SettingsTab → ProjectUpdate
build_body t = record no_update {
  root_directory = some (or_null t.root_directory);
  build_command = some (or_null t.build_command);
  install_command = some (or_null t.install_command);
  output_directory = some (or_null t.output_directory);
}

unfoldable pub start_save_build : SettingsTab → SettingsTab
start_save_build t = record t { saving_build = true; message = str "" }

unfoldable pub finish_save_build : Reply Project → SettingsTab → SettingsTab × Bool
finish_save_build (ok p) t = (
  record t {
    message = str "Build settings saved. Changes will apply to the next build.";
    saving_build = false;
  },
  true,
)
finish_save_build _ t =
    (record t { message = str "Failed to save build settings."; saving_build = false }, false)

-- `handleToggleDeployLock`
unfoldable pub start_toggle_deploy_lock : SettingsTab → SettingsTab × Bool
start_toggle_deploy_lock t = (
  record t { deploy_locked = not t.deploy_locked; saving = true; message = str "" },
  not t.deploy_locked,
)

unfoldable pub deploy_lock_body : Bool → ProjectUpdate
deploy_lock_body new_value = record no_update { deploy_locked = some (some new_value) }

unfoldable pub finish_toggle_deploy_lock : Bool → Reply Project → SettingsTab → SettingsTab × Bool
finish_toggle_deploy_lock new_value (ok p) t = (
  record t {
    message =
        if new_value
        then str "Deploys are now locked. No new deploys will be triggered."
        else str "Deploys are now unlocked.";
    saving = false;
  },
  true,
)
finish_toggle_deploy_lock new_value _ t = (
  record t {
    deploy_locked = not new_value;
    message = str "Failed to update deploy lock.";
    saving = false;
  },
  false,
)

abbrev controls : Texts → SettingsTab → Option String → ProjectUpdate
controls js t expires = record no_update {
  health_check_path = some (or_null t.health_check_path);
  health_check_timeout =
      some
        (if truthy_text t.health_check_timeout then js.parse_int t.health_check_timeout else none);
  webhook_url = some (or_null t.webhook_url);
  expires_at = some expires;
}

-- `handleSaveDeployControls`: none when the date is invalid and the body throws, which the `catch` takes.
abbrev dated : Texts → SettingsTab → Option String → Option ProjectUpdate
dated js t none = none
dated js t (some iso) = some (controls js t (some iso))

unfoldable pub controls_body : Texts → SettingsTab → Option ProjectUpdate
controls_body js t =
    if truthy_text t.expires_at
    then dated js t (js.to_iso t.expires_at)
    else some (controls js t none)

unfoldable pub start_save_deploy : SettingsTab → SettingsTab
start_save_deploy t = record t { saving_deploy = true; message = str "" }

unfoldable pub finish_save_deploy : Reply Project → SettingsTab → SettingsTab × Bool
finish_save_deploy (ok p) t =
    (record t { message = str "Deploy controls saved."; saving_deploy = false }, true)
finish_save_deploy _ t =
    (record t { message = str "Failed to save deploy controls."; saving_deploy = false }, false)

-- `handleDisconnectRepo`
unfoldable pub start_disconnect : SettingsTab → SettingsTab
start_disconnect t = record t { disconnecting = true }

unfoldable pub finish_disconnect : Reply (Unit {0}) → SettingsTab → SettingsTab × Bool
finish_disconnect (ok u) t =
    (record t { show_disconnect_modal = false; disconnecting = false }, true)
finish_disconnect _ t =
    (record t { message = str "Failed to disconnect repository."; disconnecting = false }, false)

-- `handleDeleteProject`: behind a success the page is left; the second component is its address.
unfoldable pub start_delete : SettingsTab → SettingsTab
start_delete t = record t { deleting = true }

unfoldable pub finish_delete : Reply (Unit {0}) → SettingsTab → SettingsTab × Option String
finish_delete (ok u) t = (t, some "/dashboard")
finish_delete (api_error status detail) t = (record t { message = detail; deleting = false }, none)
finish_delete failed t =
    (record t { message = str "Failed to delete project."; deleting = false }, none)
