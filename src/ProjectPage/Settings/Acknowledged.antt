-- ===== src/ProjectPage/Settings/Acknowledged.antt =====
-- What the switches show, and what the server took.
use tbd_dev.Prelude.{
  ℕ, String, Bool, true, false, Option, none, some, ◌≡◌, refl, ap, sym, ◌∙◌, arith, not,
  if◌then◌else◌,
}
use tbd_dev.Types.Projects.{Project}
use tbd_dev.Client.{Reply, ok}
use tbd_dev.ProjectPage.Settings.{SettingsTab, initial}
use tbd_dev.ProjectPage.Settings.Handlers.{
  start_save_domain, start_save_build, start_save_deploy, start_disconnect, start_delete,
  finish_save_domain, finish_save_build, finish_save_deploy, finish_disconnect, finish_delete,
  start_toggle_auto_deploy, finish_toggle_auto_deploy, start_toggle_deploy_lock,
  finish_toggle_deploy_lock,
}

pub data Switch : Type 0 where
  auto deploy_lock : Switch

unfoldable pub flip : Switch → SettingsTab → SettingsTab × Bool
unfolding start_toggle_auto_deploy start_toggle_deploy_lock
flip auto t = start_toggle_auto_deploy t
flip deploy_lock t = start_toggle_deploy_lock t

unfoldable pub settle : Switch → Bool → Reply Project → SettingsTab → SettingsTab × Bool
unfolding finish_toggle_auto_deploy finish_toggle_deploy_lock
settle auto new_value r t = finish_toggle_auto_deploy new_value r t
settle deploy_lock new_value r t = finish_toggle_deploy_lock new_value r t

unfoldable pub shown : Switch → SettingsTab → Bool
shown auto t = t.auto_deploy
shown deploy_lock t = t.deploy_locked

abbrev pub same_switch : Switch → Switch → Bool
same_switch auto auto = true
same_switch deploy_lock deploy_lock = true
same_switch _ _ = false

-- The values that the server acknowledged.
pub record Acked : Type 0 where
  pub auto_deploy : Bool
  pub deploy_locked : Bool

unfoldable pub acked : Switch → Acked → Bool
acked auto a = a.auto_deploy
acked deploy_lock a = a.deploy_locked

unfoldable pub acknowledge : Switch → Bool → Reply Project → Acked → Acked
acknowledge auto new_value (ok p) a = record a { auto_deploy = new_value }
acknowledge deploy_lock new_value (ok p) a = record a { deploy_locked = new_value }
acknowledge _ new_value _ a = a

-- Everything else that the tab does: input, and the handlers of its other buttons.
pub data Other : Type 0 where
  edited : (root build install output path timeout webhook expires subdomain : String) → Other
  domain_started build_started deploy_started disconnect_started delete_started : Other
  domain_finished build_finished deploy_finished : Reply Project → Other
  disconnect_finished delete_finished : Reply (Unit {0}) → Other

unfoldable pub other : Other → SettingsTab → SettingsTab
unfolding start_save_domain start_save_build start_save_deploy start_disconnect start_delete
    finish_save_domain finish_save_build finish_save_deploy finish_disconnect finish_delete
other (edited root build install output path timeout webhook expires subdomain) t = record t {
  root_directory = root;
  build_command = build;
  install_command = install;
  output_directory = output;
  health_check_path = path;
  health_check_timeout = timeout;
  webhook_url = webhook;
  expires_at = expires;
  subdomain = subdomain;
}
other domain_started t = start_save_domain t
other build_started t = start_save_build t
other deploy_started t = start_save_deploy t
other disconnect_started t = start_disconnect t
other delete_started t = start_delete t
other (domain_finished r) t = (finish_save_domain r t).0
other (build_finished r) t = (finish_save_build r t).0
other (deploy_finished r) t = (finish_save_deploy r t).0
other (disconnect_finished r) t = (finish_disconnect r t).0
other (delete_finished r) t = (finish_delete r t).0

-- The states of the tab, with the request of a switch that waits for its reply, and what the server
-- acknowledged. Both switches are disabled while `saving`.
pub data Reach (print : ℕ → String) (p : Project)
    : SettingsTab → Option (Switch × Bool) → Acked → Type 0 where
  opened :
      Reach print p
        (initial print p)
        none
        (record { auto_deploy = p.auto_deploy; deploy_locked = p.deploy_locked })
  flipped :
      {t : SettingsTab} {waiting : Option (Switch × Bool)} {a : Acked} (s : Switch)
      → Reach print p t waiting a
      → t.saving ≡ false
      → Reach print p (flip s t).0 (some (s, (flip s t).1)) a
  replied :
      {t : SettingsTab} {a : Acked} (s : Switch) (new_value : Bool) (r : Reply Project)
      → Reach print p t (some (s, new_value)) a
      → Reach print p (settle s new_value r t).0 none (acknowledge s new_value r a)
  changed :
      {t : SettingsTab} {waiting : Option (Switch × Bool)} {a : Acked} (o : Other)
      → Reach print p t waiting a
      → Reach print p (other o t) waiting a

-- The switch that waits shows the opposite of what the server has, and the other one what it has.
abbrev pub IsFaithful : SettingsTab → Option (Switch × Bool) → Acked → Type 0
IsFaithful t none a = (t.saving ≡ false) × ((s : Switch) → shown s t ≡ acked s a)
IsFaithful t (some (s, new_value)) a =
    (t.saving ≡ true)
    × (new_value ≡ not (acked s a))
    × ((k : Switch) → shown k t ≡ (if same_switch s k then new_value else acked k a))

flip-IsFaithful :
    (s : Switch) (t : SettingsTab) (a : Acked)
    → IsFaithful t none a
    → IsFaithful (flip s t).0 (some (s, (flip s t).1)) a
unfolding flip shown acked start_toggle_auto_deploy start_toggle_deploy_lock
flip-IsFaithful auto t a (quiet, h) = (refl, ap not (h auto), both)
  where
    both :
        (k : Switch)
        → shown k (flip auto t).0 ≡ (if same_switch auto k then not t.auto_deploy else acked k a)
    both auto = refl
    both deploy_lock = h deploy_lock
flip-IsFaithful deploy_lock t a (quiet, h) = (refl, ap not (h deploy_lock), both)
  where
    both :
        (k : Switch)
        → shown k (flip deploy_lock t).0
          ≡ (if same_switch deploy_lock k then not t.deploy_locked else acked k a)
    both auto = h auto
    both deploy_lock = refl

settle-IsFaithful :
    (s : Switch) (new_value : Bool) (r : Reply Project) (t : SettingsTab) (a : Acked)
    → IsFaithful t (some (s, new_value)) a
    → IsFaithful (settle s new_value r t).0 none (acknowledge s new_value r a)
unfolding settle shown acked acknowledge finish_toggle_auto_deploy finish_toggle_deploy_lock
settle-IsFaithful s new_value r t a (busy, opposite, h) = (quiet, both)
  where
    quiet : (settle s new_value r t).0.saving ≡ false
    quiet = ground arith

    both : (k : Switch) → shown k (settle s new_value r t).0 ≡ acked k (acknowledge s new_value r a)
    both auto = ground (arith, h auto)
    both deploy_lock = ground (arith, h deploy_lock)

other_keeps :
    (o : Other) (t : SettingsTab)
    → ((other o t).saving ≡ t.saving) × ((s : Switch) → shown s (other o t) ≡ shown s t)
unfolding other shown start_save_domain start_save_build start_save_deploy start_disconnect
    start_delete finish_save_domain finish_save_build finish_save_deploy finish_disconnect
    finish_delete
other_keeps o t = (ground arith, both)
  where
    both : (s : Switch) → shown s (other o t) ≡ shown s t
    both auto = ground arith
    both deploy_lock = ground arith

other-IsFaithful :
    (o : Other) (t : SettingsTab) (waiting : Option (Switch × Bool)) (a : Acked)
    → IsFaithful t waiting a
    → IsFaithful (other o t) waiting a
other-IsFaithful o t none a (quiet, h) =
    let (saving, same) = other_keeps o t in (saving ∙ quiet, λ s. same s ∙ h s)
other-IsFaithful o t (some (k, new_value)) a (busy, opposite, h) =
    let (saving, same) = other_keeps o t in (saving ∙ busy, opposite, λ s. same s ∙ h s)

idle-IsFaithful :
    (t : SettingsTab) (waiting : Option (Switch × Bool)) (a : Acked)
    → t.saving ≡ false
    → IsFaithful t waiting a
    → IsFaithful t none a
idle-IsFaithful t none a quiet h = h
idle-IsFaithful t (some w) a quiet (busy, _, _) = absurd (let e = sym busy ∙ quiet in cc)

-- Whatever is clicked and typed, and however the requests end, each switch shows what the server last
-- acknowledged for it, save the one whose request waits for its reply, which shows the opposite; a
-- request that fails puts the switch back.
pub Reach-IsFaithful :
    {print : ℕ → String} {p : Project} {t : SettingsTab} {waiting : Option (Switch × Bool)}
    {a : Acked}
    → Reach print p t waiting a
    → IsFaithful t waiting a
unfolding initial shown acked
Reach-IsFaithful {print} {p} opened = (refl, both)
  where
    both :
        (s : Switch)
        → shown s (initial print p)
          ≡ acked s (record { auto_deploy = p.auto_deploy; deploy_locked = p.deploy_locked })
    both auto = refl
    both deploy_lock = refl
Reach-IsFaithful (flipped {t} {waiting} {a} s r quiet) =
    flip-IsFaithful s t a (idle-IsFaithful t waiting a quiet (Reach-IsFaithful r))
Reach-IsFaithful (replied {t} {a} s new_value r reached) =
    settle-IsFaithful s new_value r t a (Reach-IsFaithful reached)
Reach-IsFaithful (changed {t} {waiting} {a} o r) =
    other-IsFaithful o t waiting a (Reach-IsFaithful r)
