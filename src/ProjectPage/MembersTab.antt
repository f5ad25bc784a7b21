-- ===== src/ProjectPage/MembersTab.antt =====
-- web/src/app/dashboard/[projectId]/page.tsx, `MembersTab`: the members, the search for new ones and the
-- handlers, each cut at its requests. `trim` is JavaScript's.
pub mod Searched
pub mod Sticky
use tbd_dev.Prelude.{
  ℕ, String, Bool, true, false, Option, none, some, List, [], ◌∷◌, ◌||◌, ◌&&◌, not, ◌==◌, eqb,
  if◌then◌else◌, any, filterb, map, truthy_text,
}
use tbd_dev.Types.Accounts.{
  UserInfo, Role, jas_staff, jas_faculty, UserSearchResult, UserSearchResponse,
}
use tbd_dev.Types.Projects.{Project, ProjectMember, ProjectMemberListResponse}
use tbd_dev.Client.{Reply, ok, api_error, failed}

-- A search that waits for its 300 milliseconds, or for its reply: the query and the closure's members.
pub record Search : Type 0 where
  pub query : String
  pub members : List ProjectMember

pub record MembersTab : Type 0 where
  pub members : List ProjectMember
  pub loading : Bool
  pub error : String
  pub search_query : String
  pub search_results : List UserSearchResult
  pub searching : Bool
  pub show_results : Bool
  pub adding : Bool
  pub add_error : String
  pub remove_target : Option ProjectMember
  pub removing : Bool
  -- `searchTimerRef`
  pub timer : Option Search

abbrev pub first_tab : MembersTab
first_tab = record {
  members = [];
  loading = true;
  error = "";
  search_query = "";
  search_results = [];
  searching = false;
  show_results = false;
  adding = false;
  add_error = "";
  remove_target = none;
  removing = false;
  timer = none;
}

abbrev pub has_id : Option UserInfo → String → Bool
has_id none id = false
has_id (some u) id = u.id == id

abbrev pub is_staff_or_faculty : Option UserInfo → Bool
is_staff_or_faculty none = false
is_staff_or_faculty (some u) = elim u.role [ jas_staff ↦ true | jas_faculty ↦ true | _ ↦ false ]

-- `canManageMembers`
unfoldable pub can_manage_members : Option UserInfo → Project → Bool
can_manage_members user p = has_id user p.owner_id || is_staff_or_faculty user

-- The search effect, which runs when the query or the members change, behind its cleanup.
unfoldable pub search_effect : (String → String) → MembersTab → MembersTab
search_effect trim t =
    if truthy_text (trim t.search_query)
    then record t { timer = some (record { query = trim t.search_query; members = t.members }) }
    else record t { timer = none; search_results = []; show_results = false }

abbrev pub is_excluded : String → List ProjectMember → String → Bool
is_excluded owner_id members id =
    (owner_id == id) || any (λ (m : ProjectMember). m.user_id == id) members

-- The timer fires.
unfoldable pub start_search : MembersTab → MembersTab × Option Search
start_search t = elim t.timer [
  | none ↦ (t, none)
  | some s ↦ (record t { timer = none; searching = true }, some s)
]

unfoldable pub finish_search : String → Search → Reply UserSearchResponse → MembersTab → MembersTab
finish_search owner_id s (ok res) t = record t {
  search_results =
      filterb (λ (u : UserSearchResult). not (is_excluded owner_id s.members u.id)) res.items;
  show_results = true;
  searching = false;
}
finish_search owner_id s _ t = record t { search_results = []; searching = false }

-- `setSearchQuery`, and the effect.
unfoldable pub edit_query : (String → String) → String → MembersTab → MembersTab
unfolding search_effect
edit_query trim q t = search_effect trim (record t { search_query = q })

-- `handleClickOutside`, outside the search
unfoldable pub click_outside : MembersTab → MembersTab
click_outside t = record t { show_results = false }

-- `fetchMembers` behind its request; new members make the search effect run.
unfoldable pub finish_fetch :
    (String → String) → Reply ProjectMemberListResponse → MembersTab → MembersTab
unfolding search_effect
finish_fetch trim (ok res) t =
    search_effect trim (record t { members = res.items; loading = false })
finish_fetch trim _ t = record t { error = "Failed to load members"; loading = false }

-- `handleAddMember` up to its request, behind that, where the Boolean says that `fetchMembers` is called,
-- and behind the call.
unfoldable pub start_add : MembersTab → MembersTab
start_add t = record t { adding = true; add_error = "" }

unfoldable pub finish_add : (String → String) → Reply ProjectMember → MembersTab → MembersTab × Bool
unfolding search_effect
finish_add trim (ok m) t = (
  search_effect trim (record t { search_query = ""; search_results = []; show_results = false }),
  true,
)
finish_add trim (api_error status detail) t = (
  record t {
    add_error =
        if eqb status 409
        then "User is already a member of this project"
        else "Failed to add member";
    adding = false;
  },
  false,
)
finish_add trim failed t = (record t { add_error = "Failed to add member"; adding = false }, false)

unfoldable pub end_add : MembersTab → MembersTab
end_add t = record t { adding = false }

-- `handleRemoveMember`, in the same three parts.
unfoldable pub start_remove : MembersTab → MembersTab × Option String
start_remove t = elim t.remove_target [
  | none ↦ (t, none)
  | some m ↦ (record t { removing = true }, some m.user_id)
]

unfoldable pub finish_remove : Reply (Unit {0}) → MembersTab → MembersTab × Bool
finish_remove (ok u) t = (record t { remove_target = none }, true)
finish_remove _ t = (record t { error = "Failed to remove member"; removing = false }, false)

unfoldable pub end_remove : MembersTab → MembersTab
end_remove t = record t { removing = false }

pub data View : Type 0 where
  loading_view tab_view : View
  error_view : String → View

abbrev pub is_empty : List ProjectMember → Bool
is_empty [] = true
is_empty (m ∷ ms) = false

unfoldable pub view : MembersTab → View
view t =
    if t.loading
    then loading_view
    else if truthy_text t.error && is_empty t.members
    then error_view t.error
    else tab_view
