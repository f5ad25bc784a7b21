-- ===== src/Access.antt =====
-- Who sees what: web/src/components/app-shell.tsx, the layouts of web/src/app/{dashboard,settings,staff,
-- faculty,admin}, and the items and the highlighting of web/src/components/sidebar.tsx. A component is
-- modelled by what it shows and the pages its effect redirects to, over the `user` and `loading` of
-- `useAuth`.
pub mod Guards
pub mod Navigation
use tbd_dev.Prelude.{
  ℕ, String, Bool, true, false, Option, none, some, List, [], ◌∷◌, ◌++◌, ◌==◌, ◌||◌, ◌&&◌, not,
  if◌then◌else◌, any, filterb, starts_with,
}
use tbd_dev.Types.Accounts.{UserInfo, Role, jas_developer, jas_staff, jas_faculty}

-- Nothing, the loading text, or the shell around the page.
pub data Screen : Type 0 where
  blank waiting shell : Screen

pub record Frame : Type 0 where
  pub screen : Screen
  pub redirects : List String

-- `AppShell`
unfoldable pub app_shell : Bool → Option UserInfo → Frame
app_shell true user = record { screen = waiting; redirects = [] }
app_shell false none = record { screen = blank; redirects = "/login" ∷ [] }
app_shell false (some u) = record { screen = shell; redirects = [] }

unfoldable pub role_eqb : Role → Role → Bool
role_eqb jas_developer jas_developer = true
role_eqb jas_staff jas_staff = true
role_eqb jas_faculty jas_faculty = true
role_eqb _ _ = false

-- The layouts of the dashboard, the settings and the admin pages.
unfoldable pub plain_layout : Bool → Option UserInfo → Frame
unfolding app_shell
plain_layout loading user = app_shell loading user

-- A layout that admits some roles only. `AppShell` and its effect stand behind the guard.
abbrev guarded : (Role → Bool) → Bool → Option UserInfo → Frame
guarded admits true user = record { screen = blank; redirects = [] }
guarded admits false none = record { screen = blank; redirects = [] }
guarded admits false (some u) =
    if admits u.role
    then app_shell false (some u)
    else record { screen = blank; redirects = "/dashboard" ∷ [] }

-- `StaffLayout`
unfoldable pub staff_layout : Bool → Option UserInfo → Frame
unfolding app_shell role_eqb
staff_layout =
    guarded (λ (r : Role). not (not (role_eqb r jas_staff) && not (role_eqb r jas_faculty)))

-- `FacultyLayout`
unfoldable pub faculty_layout : Bool → Option UserInfo → Frame
unfolding app_shell role_eqb
faculty_layout = guarded (λ (r : Role). not (not (role_eqb r jas_faculty)))

-- The layout of a page, which Next.js chooses by the first folder of its path.
unfoldable pub layout_of : String → Bool → Option UserInfo → Frame
unfolding starts_with staff_layout faculty_layout plain_layout
layout_of href =
    if href == "/staff" || starts_with href "/staff/"
    then staff_layout
    else if href == "/faculty" || starts_with href "/faculty/"
    then faculty_layout
    else plain_layout

pub record NavItem : Type 0 where
  pub href : String
  pub label : String
  pub roles : List Role
  pub exact : Bool
  pub section : Option String
  pub indent : Bool

abbrev top : String → String → List Role → NavItem
top href label roles = record {
  href = href;
  label = label;
  roles = roles;
  exact = false;
  section = none;
  indent = false;
}

abbrev head : String → String → List Role → String → NavItem
head href label roles section = record {
  href = href;
  label = label;
  roles = roles;
  exact = true;
  section = some section;
  indent = false;
}

abbrev sub : String → String → List Role → NavItem
sub href label roles = record {
  href = href;
  label = label;
  roles = roles;
  exact = false;
  section = none;
  indent = true;
}

abbrev everyone : List Role
everyone = jas_developer ∷ jas_staff ∷ jas_faculty ∷ []

abbrev staff_only : List Role
staff_only = jas_staff ∷ []

abbrev faculty_only : List Role
faculty_only = jas_faculty ∷ []

abbrev both : List Role
both = jas_staff ∷ jas_faculty ∷ []

-- `NAV_ITEMS`
abbrev pub nav_items : List NavItem
nav_items =
    top "/dashboard" "Projects" everyone
    ∷ top "/settings" "Settings" everyone
    ∷ head "/staff" "Overview" staff_only "staff"
    ∷ sub "/staff/projects" "All Projects" staff_only
    ∷ sub "/staff/students" "Students" staff_only
    ∷ sub "/staff/tags" "Tags" staff_only
    ∷ sub "/staff/quotas" "Quotas" staff_only
    ∷ sub "/staff/vlans" "VLANs" staff_only
    ∷ sub "/staff/audit" "Audit Log" staff_only
    ∷ head "/faculty" "Overview" faculty_only "faculty"
    ∷ sub "/faculty/projects" "All Projects" faculty_only
    ∷ sub "/faculty/students" "Students" faculty_only
    ∷ sub "/faculty/tags" "Tags" faculty_only
    ∷ record {
      href = "/faculty/users";
      label = "Users";
      roles = faculty_only;
      exact = false;
      section = some "management";
      indent = true;
    }
    ∷ sub "/faculty/quotas" "Quotas" faculty_only
    ∷ sub "/faculty/network-policies" "Network Policies" faculty_only
    ∷ sub "/faculty/vlans" "VLANs" faculty_only
    ∷ sub "/faculty/audit" "Audit Log" faculty_only
    ∷ head "/admin" "Admin" both "admin"
    ∷ sub "/admin/users" "Users" both
    ∷ sub "/admin/quotas" "Quotas" both
    ∷ sub "/admin/network-policies" "Network Policies" both
    ∷ sub "/admin/vlans" "VLANs" both
    ∷ sub "/admin/audit" "Audit Log" both
    ∷ []

-- `visibleItems`
unfoldable pub visible_items : Role → List NavItem
unfolding role_eqb
visible_items role = filterb (λ (item : NavItem). any (role_eqb role) item.roles) nav_items

-- `isActive`
unfoldable pub is_active : String → NavItem → Bool
unfolding starts_with
is_active pathname item =
    if item.exact then pathname == item.href else starts_with pathname item.href
