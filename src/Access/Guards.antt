-- ===== src/Access/Guards.antt =====
-- The layouts' guards.
use tbd_dev.Prelude.{Bool, true, false, Option, none, some, ◌≡◌, ◌⊎◌, ◌↔◌, inl, inr, refl, subst}
use tbd_dev.Types.Accounts.{UserInfo, Role, jas_developer, jas_staff, jas_faculty}
use tbd_dev.Access.{shell, app_shell, role_eqb, staff_layout, faculty_layout}

Role-cases : (r : Role) → (r ≡ jas_developer) ⊎ ((r ≡ jas_staff) ⊎ (r ≡ jas_faculty))
Role-cases jas_developer = inl refl
Role-cases jas_staff = inr (inl refl)
Role-cases jas_faculty = inr (inr refl)

-- A page of the staff shows its shell exactly when a user is loaded whose role is staff or faculty.
pub screen-staff_layout :
    (loading : Bool) (user : Option UserInfo)
    → ((staff_layout loading user).screen ≡ shell) ↔ (
        (loading ≡ false)
        × ((u : UserInfo) × (user ≡ some u) × ((u.role ≡ jas_staff) ⊎ (u.role ≡ jas_faculty))))
unfolding staff_layout app_shell role_eqb
screen-staff_layout true user = ((λ h. cc), λ h. cc)
screen-staff_layout false none = ((λ h. cc), λ (_, (u, e, _)). cc)
screen-staff_layout false (some u) = (
  (λ h. (
    refl,
    (
      u,
      refl,
      elim (Role-cases u.role) [
        | inl developer ↦ absurd (let h' = rw developer at h in cc)
        | inr admitted ↦ admitted
      ],
    ),
  )),
  λ (_, (v, same, admitted)).
      let here : v ≡ u = cc in
      elim (subst (λ (w : UserInfo). (w.role ≡ jas_staff) ⊎ (w.role ≡ jas_faculty)) here admitted) [
        | inl staff ↦ rw staff refl
        | inr faculty ↦ rw faculty refl
      ],
)

-- A page of the faculty shows its shell exactly when a user is loaded whose role is faculty.
pub screen-faculty_layout :
    (loading : Bool) (user : Option UserInfo)
    → ((faculty_layout loading user).screen ≡ shell)
      ↔ ((loading ≡ false) × ((u : UserInfo) × (user ≡ some u) × (u.role ≡ jas_faculty)))
unfolding faculty_layout app_shell role_eqb
screen-faculty_layout true user = ((λ h. cc), λ h. cc)
screen-faculty_layout false none = ((λ h. cc), λ (_, (u, e, _)). cc)
screen-faculty_layout false (some u) = (
  (λ h. (
    refl,
    (
      u,
      refl,
      elim (Role-cases u.role) [
        | inl developer ↦ absurd (let h' = rw developer at h in cc)
        | inr (inl staff) ↦ absurd (let h' = rw staff at h in cc)
        | inr (inr faculty) ↦ faculty
      ],
    ),
  )),
  λ (_, (v, same, admitted)).
      let here : v ≡ u = cc in
      rw (subst (λ (w : UserInfo). w.role ≡ jas_faculty) here admitted) refl,
)
