-- ===== src/Api/Routes/Services.antt =====
-- The routes of backend/app/api/v1/endpoints that the hooks of Api/Services and Api/Topology are meant
-- for, and those of log-in.
use datacenter_manager.Prelude.{none, some, List, [], ◌∷◌}
use datacenter_manager.Api.{get, post, put, patch, delete, paged, listed, single, empty}
use datacenter_manager.Api.Routes.Pattern.{Route, lit, var, route}

abbrev pub login : Route
login = route post (lit "auth" ∷ lit "login" ∷ []) single none

abbrev pub refresh_tokens : Route
refresh_tokens = route post (lit "auth" ∷ lit "refresh" ∷ []) single none

abbrev pub logout : Route
logout = route post (lit "auth" ∷ lit "logout" ∷ []) empty none

abbrev pub get_me : Route
get_me = route get (lit "auth" ∷ lit "me" ∷ []) single none

abbrev pub change_password : Route
change_password = route post (lit "auth" ∷ lit "change-password" ∷ []) single none

abbrev pub auth_router : List Route
auth_router = login ∷ refresh_tokens ∷ logout ∷ get_me ∷ change_password ∷ []

abbrev pub list_users : Route
list_users = route get (lit "users" ∷ []) paged (some 100)

abbrev pub create_user : Route
create_user = route post (lit "users" ∷ []) single none

abbrev pub get_user : Route
get_user = route get (lit "users" ∷ var ∷ []) single none

abbrev pub update_user : Route
update_user = route patch (lit "users" ∷ var ∷ []) single none

abbrev pub reset_user_password : Route
reset_user_password = route post (lit "users" ∷ var ∷ lit "reset-password" ∷ []) single none

abbrev pub users_router : List Route
users_router = list_users ∷ create_user ∷ get_user ∷ update_user ∷ reset_user_password ∷ []

abbrev pub list_expiring_licenses : Route
list_expiring_licenses = route get (lit "licenses" ∷ lit "expiring" ∷ []) paged (some 100)

abbrev pub list_licenses : Route
list_licenses = route get (lit "licenses" ∷ []) paged (some 100)

abbrev pub create_license : Route
create_license = route post (lit "licenses" ∷ []) single none

abbrev pub get_license : Route
get_license = route get (lit "licenses" ∷ var ∷ []) single none

abbrev pub update_license : Route
update_license = route put (lit "licenses" ∷ var ∷ []) single none

abbrev pub delete_license : Route
delete_license = route delete (lit "licenses" ∷ var ∷ []) empty none

abbrev pub licenses_router : List Route
licenses_router =
    list_expiring_licenses ∷ list_licenses ∷ create_license ∷ get_license ∷ update_license
    ∷ delete_license ∷ []

abbrev pub list_integrations : Route
list_integrations = route get (lit "integrations" ∷ []) paged (some 100)

abbrev pub create_integration : Route
create_integration = route post (lit "integrations" ∷ []) single none

abbrev pub get_integration : Route
get_integration = route get (lit "integrations" ∷ var ∷ []) single none

abbrev pub update_integration : Route
update_integration = route put (lit "integrations" ∷ var ∷ []) single none

abbrev pub delete_integration : Route
delete_integration = route delete (lit "integrations" ∷ var ∷ []) empty none

abbrev pub get_integration_logs : Route
get_integration_logs = route get (lit "integrations" ∷ var ∷ lit "logs" ∷ []) listed none

abbrev pub trigger_sync : Route
trigger_sync = route post (lit "integrations" ∷ var ∷ lit "sync" ∷ []) empty none

abbrev pub test_integration : Route
test_integration = route post (lit "integrations" ∷ var ∷ lit "test" ∷ []) empty none

abbrev pub integrations_router : List Route
integrations_router =
    list_integrations ∷ create_integration ∷ get_integration ∷ update_integration
    ∷ delete_integration ∷ get_integration_logs ∷ trigger_sync ∷ test_integration ∷ []

abbrev pub get_topology_path : Route
get_topology_path = route get (lit "topology" ∷ lit "path" ∷ []) single none

abbrev pub topology_physical : Route
topology_physical = route get (lit "topology" ∷ lit "physical" ∷ []) single none

abbrev pub topology_network : Route
topology_network = route get (lit "topology" ∷ lit "network" ∷ []) single none

abbrev pub topology_rack : Route
topology_rack = route get (lit "topology" ∷ lit "rack" ∷ var ∷ []) single none

abbrev pub topology_datacenter : Route
topology_datacenter = route get (lit "topology" ∷ lit "datacenter" ∷ var ∷ []) single none

abbrev pub topology_floor_plan : Route
topology_floor_plan = route get (lit "topology" ∷ lit "floor-plan" ∷ []) single none

abbrev pub topology_router : List Route
topology_router =
    get_topology_path ∷ topology_physical ∷ topology_network ∷ topology_rack ∷ topology_datacenter
    ∷ topology_floor_plan ∷ []

abbrev pub dashboard_summary : Route
dashboard_summary = route get (lit "dashboard" ∷ lit "summary" ∷ []) single none

abbrev pub dashboard_power : Route
dashboard_power = route get (lit "dashboard" ∷ lit "power" ∷ []) single none

abbrev pub dashboard_capacity : Route
dashboard_capacity = route get (lit "dashboard" ∷ lit "capacity" ∷ []) single none

abbrev pub dashboard_alerts : Route
dashboard_alerts = route get (lit "dashboard" ∷ lit "alerts" ∷ []) listed none

abbrev pub dashboard_router : List Route
dashboard_router = dashboard_summary ∷ dashboard_power ∷ dashboard_capacity ∷ dashboard_alerts ∷ []

abbrev pub get_alerts_summary : Route
get_alerts_summary = route get (lit "alerts" ∷ lit "summary" ∷ []) single none

abbrev pub list_alerts : Route
list_alerts = route get (lit "alerts" ∷ []) paged (some 200)

abbrev pub create_alert : Route
create_alert = route post (lit "alerts" ∷ []) single none

abbrev pub get_alert : Route
get_alert = route get (lit "alerts" ∷ var ∷ []) single none

abbrev pub update_alert : Route
update_alert = route patch (lit "alerts" ∷ var ∷ []) single none

abbrev pub acknowledge_alert : Route
acknowledge_alert = route post (lit "alerts" ∷ var ∷ lit "acknowledge" ∷ []) single none

abbrev pub delete_alert : Route
delete_alert = route delete (lit "alerts" ∷ var ∷ []) empty none

abbrev pub alerts_router : List Route
alerts_router =
    get_alerts_summary ∷ list_alerts ∷ create_alert ∷ get_alert ∷ update_alert ∷ acknowledge_alert
    ∷ delete_alert ∷ []

abbrev pub global_search : Route
global_search = route get (lit "search" ∷ []) single none

abbrev pub search_router : List Route
search_router = global_search ∷ []

abbrev pub list_audit_logs : Route
list_audit_logs = route get (lit "audit-logs" ∷ []) paged (some 100)

abbrev pub list_audit_logs_for_entity : Route
list_audit_logs_for_entity = route get (lit "audit-logs" ∷ var ∷ var ∷ []) paged (some 100)

abbrev pub audit_router : List Route
audit_router = list_audit_logs ∷ list_audit_logs_for_entity ∷ []
