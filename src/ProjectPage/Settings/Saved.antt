-- ===== src/ProjectPage/Settings/Saved.antt =====
-- What the forms count as changed.
use Prim.Native.String.{[] as ε, ◌∷◌ as ◌▸◌}
use tbd_dev.Prelude.{
  ℕ, String, Bool, true, false, Option, none, some, ◌≡◌, refl, arith, not, ◌||◌, or_else,
  truthy_text, eq_refl, eq_iff, ◌↔◌, subst, ap,
}
use tbd_dev.Types.Projects.{Project}
use tbd_dev.ProjectPage.Settings.{
  SettingsTab, initial, or_null, differ, differ_bool, minutes, map_print, build_settings_changed,
  deploy_controls_changed, domain_changed, take_text,
}
use tbd_dev.ProjectPage.Settings.Handlers.{build_body}

differ_refl : (o : Option String) → differ o o ≡ false
unfolding differ
differ_refl none = refl
differ_refl (some s) = ap not (eq_refl s)

differ_iff : (a b : Option String) → (differ a b ≡ false) ↔ (a ≡ b)
unfolding differ
differ_iff a b = (same a b, λ e. subst (λ c. differ a c ≡ false) e (differ_refl a))
  where
    same : (a b : Option String) → differ a b ≡ false → a ≡ b
    same none none h = refl
    same none (some t) h = cc
    same (some s) none h = cc
    same (some s) (some t) h = ground (arith, eq_iff s t)

either_false : (a b : Bool) → (a || b) ≡ false → (a ≡ false) × (b ≡ false)
either_false a b h = (ground arith, ground arith)

-- A field behind a PATCH.
abbrev pub patched : Option (Option String) → Option String → Option String
patched none old = old
patched (some new) old = new

-- The build settings count as changed exactly when saving them would change what the project has.
pub build_settings_changed_iff :
    (t : SettingsTab) (p : Project)
    → (build_settings_changed t p ≡ false) ↔ (
        (patched (build_body t).root_directory p.root_directory ≡ p.root_directory)
        × (patched (build_body t).build_command p.build_command ≡ p.build_command)
        × (patched (build_body t).install_command p.install_command ≡ p.install_command)
        × (patched (build_body t).output_directory p.output_directory ≡ p.output_directory))
unfolding build_settings_changed build_body
build_settings_changed_iff t p = (
  λ h.
      let (abc, d) = either_false _ _ h in
      let (ab, c) = either_false _ _ abc in
      let (a, b) = either_false _ _ ab in
      (
        (differ_iff (or_null t.root_directory) p.root_directory).0 a,
        (differ_iff (or_null t.build_command) p.build_command).0 b,
        (differ_iff (or_null t.install_command) p.install_command).0 c,
        (differ_iff (or_null t.output_directory) p.output_directory).0 d,
      ),
  λ (a, b, c, d).
      rw
        (
          (differ_iff (or_null t.root_directory) p.root_directory).1 a,
          (differ_iff (or_null t.build_command) p.build_command).1 b,
          (differ_iff (or_null t.install_command) p.install_command).1 c,
          (differ_iff (or_null t.output_directory) p.output_directory).1 d,
        )
        refl,
)

-- Not the empty text.
abbrev pub Told : Option String → Type 0
Told none = Unit
Told (some s) = truthy_text s ≡ true

differ-or_else : (o : Option String) → Told o → differ (or_null (or_else o "")) o ≡ false
unfolding differ
differ-or_else none h = refl
differ-or_else (some s) h = rw h (ap not (eq_refl s))

Told-print :
    (print : ℕ → String)
    → ((n : ℕ) → truthy_text (print n) ≡ true)
    → (o : Option ℕ) → Told (map_print print o)
Told-print print h none = tt
Told-print print h (some n) = h n

Told-minutes : (o : Option String) → Told (minutes o)
unfolding take_text
Told-minutes none = tt
Told-minutes (some ε) = tt
Told-minutes (some (c ▸ s)) = refl

differ_bool_refl : (b : Bool) → differ_bool b b ≡ false
differ_bool_refl true = refl
differ_bool_refl false = refl

-- A tab that was just opened counts nothing as changed, if none of the project's texts is empty; the date
-- of expiry may be.
pub initial-unchanged :
    (print : ℕ → String) (p : Project)
    → ((n : ℕ) → truthy_text (print n) ≡ true)
    → Told p.root_directory
    → Told p.build_command
    → Told p.install_command
    → Told p.output_directory
    → Told p.health_check_path
    → Told p.webhook_url
    → (build_settings_changed (initial print p) p ≡ false)
      × (deploy_controls_changed print (initial print p) p ≡ false)
      × (domain_changed (initial print p) p ≡ false)
unfolding initial build_settings_changed deploy_controls_changed domain_changed
initial-unchanged print p printed root build install output path webhook = (
  rw
      (
        differ-or_else p.root_directory root,
        differ-or_else p.build_command build,
        differ-or_else p.install_command install,
        differ-or_else p.output_directory output,
      )
      refl,
  rw
      (
        differ_bool_refl p.deploy_locked,
        differ-or_else p.health_check_path path,
        differ-or_else (map_print print p.health_check_timeout)
            (Told-print print printed p.health_check_timeout),
        differ-or_else p.webhook_url webhook,
        differ-or_else (minutes p.expires_at) (Told-minutes p.expires_at),
      )
      refl,
  ap not (eq_refl (or_else p.custom_subdomain p.slug)),
)
