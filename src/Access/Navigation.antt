-- ===== src/Access/Navigation.antt =====
-- What the sidebar offers.
use tbd_dev.Prelude.{
  String, Bool, false, none, some, [], ◌∷◌, ◌≡◌, refl, All, ◌==◌, ◌||◌, starts_with, if◌then◌else◌,
  Bool-cases, inl, inr, filterb,
}
use tbd_dev.Types.Accounts.{UserInfo, Role, jas_developer, jas_staff, jas_faculty}
use tbd_dev.Access.{
  shell, blank, NavItem, layout_of, staff_layout, faculty_layout, plain_layout, app_shell,
  visible_items, is_active,
}

-- On the page of an item that a role sees, this item is highlighted and no other one.
pub visible_items-is_active :
    (role : Role)
    → All
        (λ (item : NavItem). filterb (is_active item.href) (visible_items role) ≡ item ∷ [])
        (visible_items role)
unfolding visible_items is_active
visible_items-is_active jas_developer = search
visible_items-is_active jas_staff = search
visible_items-is_active jas_faculty = search

-- A role's items, on the layout that stands before each page.
admitted :
    (u : UserInfo) (role : Role)
    → u.role ≡ role
    → All
        (λ (item : NavItem). (layout_of item.href false (some u)).screen ≡ shell)
        (visible_items role)
unfolding visible_items layout_of
admitted u jas_developer h = search
admitted u jas_staff h = rw h search
admitted u jas_faculty h = rw h search

-- The sidebar offers a user only pages whose layout shows the shell to that user.
pub visible_items-layout_of :
    (u : UserInfo)
    → All
        (λ (item : NavItem). (layout_of item.href false (some u)).screen ≡ shell)
        (visible_items u.role)
visible_items-layout_of u = admitted u u.role refl

-- Whether a page is under `/staff` or `/faculty`.
abbrev is_restricted : String → Bool
is_restricted href =
    (href == "/staff" || starts_with href "/staff/")
    || (href == "/faculty" || starts_with href "/faculty/")

-- A visitor who is not signed in is sent to the login page from the pages outside `/staff` and
-- `/faculty` only; on those two the visitor is left on a blank page.
pub layout_of-signed_out :
    (href : String)
    → layout_of href false none ≡ (
        if (href == "/staff" || starts_with href "/staff/")
          || (href == "/faculty" || starts_with href "/faculty/")
        then record { screen = blank; redirects = [] }
        else record { screen = blank; redirects = "/login" ∷ [] })
unfolding layout_of staff_layout faculty_layout plain_layout app_shell
layout_of-signed_out href = elim (Bool-cases (href == "/staff" || starts_with href "/staff/")) [
  | inl staff ↦ rw staff refl
  | inr other ↦ elim (Bool-cases (href == "/faculty" || starts_with href "/faculty/")) [
    | inl faculty ↦ rw (other, faculty) refl
    | inr plain ↦ rw (other, plain) refl
  ]
]
