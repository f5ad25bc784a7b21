-- ===== src/ProjectPage/Settings.antt =====
-- web/src/app/dashboard/[projectId]/page.tsx, `SettingsTab`: the forms, what counts as changed.
-- JavaScript's own functions on texts and dates are a parameter.
pub mod Handlers
pub mod Acknowledged
pub mod Saved
use Prim.Native.String.{[] as ε, ◌∷◌ as ◌▸◌}
use tbd_dev.Prelude.{
  ℕ, zero, suc, String, Bool, true, false, Option, none, some, List, [], ◌∷◌, ◌||◌, not, ◌==◌,
  if◌then◌else◌, or_else, truthy_text,
}
use tbd_dev.Types.Projects.{Project, ProjectUpdate}
use tbd_dev.Client.{Json, str, Reply, ok, api_error, failed}

-- `trim`, `toLowerCase`, `toString`, `parseInt(s, 10)` with none for NaN, and `toISOString` of the date
-- of a text, which throws on an invalid one.
pub record Texts : Type 0 where
  pub trim : String → String
  pub to_lower : String → String
  pub print : ℕ → String
  pub parse_int : String → Option ℕ
  pub to_iso : String → Option String

pub record SettingsTab : Type 0 where
  pub auto_deploy : Bool
  pub saving : Bool
  pub subdomain : String
  pub saving_domain : Bool
  pub disconnecting : Bool
  pub deleting : Bool
  pub message : Json
  pub root_directory : String
  pub build_command : String
  pub install_command : String
  pub output_directory : String
  pub saving_build : Bool
  pub deploy_locked : Bool
  pub health_check_path : String
  pub health_check_timeout : String
  pub webhook_url : String
  pub expires_at : String
  pub saving_deploy : Bool
  pub show_disconnect_modal : Bool
  pub show_delete_modal : Bool

-- `s.slice(0, n)`
unfoldable pub take_text : ℕ → String → String
take_text zero s = ε
take_text (suc n) ε = ε
take_text (suc n) (c ▸ s) = c ▸ take_text n s

-- `p.expires_at ? p.expires_at.slice(0, 16) : …`
abbrev pub minutes : Option String → Option String
minutes none = none
minutes (some s) = if truthy_text s then some (take_text 16 s) else none

abbrev pub map_print : (ℕ → String) → Option ℕ → Option String
map_print print none = none
map_print print (some n) = some (print n)

-- The initial values of the states.
unfoldable pub initial : (ℕ → String) → Project → SettingsTab
unfolding take_text
initial print p = record {
  auto_deploy = p.auto_deploy;
  saving = false;
  subdomain = or_else p.custom_subdomain p.slug;
  saving_domain = false;
  disconnecting = false;
  deleting = false;
  message = str "";
  root_directory = or_else p.root_directory "";
  build_command = or_else p.build_command "";
  install_command = or_else p.install_command "";
  output_directory = or_else p.output_directory "";
  saving_build = false;
  deploy_locked = p.deploy_locked;
  health_check_path = or_else p.health_check_path "";
  health_check_timeout = or_else (map_print print p.health_check_timeout) "";
  webhook_url = or_else p.webhook_url "";
  expires_at = or_else (minutes p.expires_at) "";
  saving_deploy = false;
  show_disconnect_modal = false;
  show_delete_modal = false;
}

-- `s || null`
abbrev pub or_null : String → Option String
or_null s = if truthy_text s then some s else none

-- `a !== b` of texts that may be null
unfoldable pub differ : Option String → Option String → Bool
differ none none = false
differ (some s) (some t) = not (s == t)
differ _ _ = true

abbrev pub differ_bool : Bool → Bool → Bool
differ_bool true b = not b
differ_bool false b = b

unfoldable pub build_settings_changed : SettingsTab → Project → Bool
unfolding differ
build_settings_changed t p =
    differ (or_null t.root_directory) p.root_directory
    || differ (or_null t.build_command) p.build_command
    || differ (or_null t.install_command) p.install_command
    || differ (or_null t.output_directory) p.output_directory

unfoldable pub deploy_controls_changed : (ℕ → String) → SettingsTab → Project → Bool
unfolding differ take_text
deploy_controls_changed print t p =
    differ_bool t.deploy_locked p.deploy_locked
    || differ (or_null t.health_check_path) p.health_check_path
    || differ (or_null t.health_check_timeout) (map_print print p.health_check_timeout)
    || differ (or_null t.webhook_url) p.webhook_url
    || differ (or_null t.expires_at) (minutes p.expires_at)

unfoldable pub domain_changed : SettingsTab → Project → Bool
domain_changed t p = not (t.subdomain == or_else p.custom_subdomain p.slug)
