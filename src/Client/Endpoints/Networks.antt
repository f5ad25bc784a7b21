-- ===== src/Client/Endpoints/Networks.antt =====
-- web/src/lib/api.ts: the calls `api.networks`.
use tbd_dev.Prelude.{String, none, some, ◌⧺◌}
use tbd_dev.Types.Platform.{Vlan, VlanListResponse}
use tbd_dev.Client.Calls.{Call}

pub record VlanReservation : Type 0 where
  pub project_id : String

unfoldable pub list_vlans : Call (Unit {0}) VlanListResponse
list_vlans = record { method = none; path = "/networks/vlans"; body = none }

unfoldable pub get_project_vlan : String → Call (Unit {0}) Vlan
get_project_vlan project_id = record {
  method = none;
  path = "/networks/vlans/" ⧺ project_id;
  body = none;
}

unfoldable pub reserve_vlan : String → Call VlanReservation Vlan
reserve_vlan project_id = record {
  method = some "POST";
  path = "/networks/vlans/reserve";
  body = some (record { project_id = project_id });
}

unfoldable pub release_vlan : String → Call (Unit {0}) (Unit {0})
release_vlan project_id = record {
  method = some "DELETE";
  path = "/networks/vlans/" ⧺ project_id;
  body = none;
}
