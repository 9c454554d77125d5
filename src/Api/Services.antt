-- ===== src/Api/Services.antt =====
-- The hooks of frontend/src/api: licenses.ts, integrations.ts, users.ts, alerts.ts, auditLogs.ts, dashboard.ts and search.ts.
use datacenter_manager.Prelude.{ℕ, String, true, Option, none, some, [], ◌∷◌}
use datacenter_manager.Api.{
  Params, Query, Mutation, Shape, fetch, send, is_given, list_query, item_query, part_query, create,
  update, remove, post, patch, name, count, text, number, listed, single,
}
use datacenter_manager.DeviceEditor.Body.{Body, Value}

abbrev dashboard_query : String → Shape → Query
dashboard_query part shape = record {
  key = name "dashboard" ∷ name part ∷ [];
  request = fetch ("dashboard" ∷ part ∷ []) [];
  expects = shape;
  enabled = true;
}

-- licenses.ts
abbrev pub use_licenses : Option Params → Query
use_licenses params = list_query "licenses" ("licenses" ∷ []) 100 params

abbrev pub use_expiring_licenses : ℕ → Query
use_expiring_licenses days = record {
  key = name "licenses" ∷ name "expiring" ∷ count days ∷ [];
  request = fetch ("licenses" ∷ "expiring" ∷ []) (("days", number days) ∷ []);
  expects = listed;
  enabled = true;
}

abbrev pub use_license : String → Query
use_license id = item_query "licenses" ("licenses" ∷ []) id

abbrev pub use_create_license : Body → Mutation
use_create_license body = create "licenses" ("licenses" ∷ []) body

abbrev pub use_update_license : String → Body → Mutation
use_update_license id body = update "licenses" patch ("licenses" ∷ []) id body

abbrev pub use_delete_license : String → Mutation
use_delete_license id = remove "licenses" ("licenses" ∷ []) id

-- integrations.ts
abbrev pub use_integrations : Option Params → Query
use_integrations params = list_query "integrations" ("integrations" ∷ []) 100 params

abbrev pub use_integration : String → Query
use_integration id = item_query "integrations" ("integrations" ∷ []) id

abbrev pub use_integration_sync_logs : String → Query
use_integration_sync_logs id = part_query "integrations" id "sync-logs" "sync-logs" listed

abbrev pub use_create_integration : Body → Mutation
use_create_integration body = create "integrations" ("integrations" ∷ []) body

abbrev pub use_update_integration : String → Body → Mutation
use_update_integration id body = update "integrations" patch ("integrations" ∷ []) id body

abbrev pub use_delete_integration : String → Mutation
use_delete_integration id = remove "integrations" ("integrations" ∷ []) id

abbrev pub use_trigger_sync : String → Mutation
use_trigger_sync id = record {
  request = send post ("integrations" ∷ id ∷ "sync" ∷ []) none;
  invalidates =
      (name "integrations" ∷ name id ∷ [])
      ∷ (name "integrations" ∷ name id ∷ name "sync-logs" ∷ [])
      ∷ [];
}

-- users.ts
abbrev pub use_users : Option Params → Query
use_users params = list_query "users" ("users" ∷ []) 100 params

abbrev pub use_user : String → Query
use_user id = item_query "users" ("users" ∷ []) id

abbrev pub use_create_user : Body → Mutation
use_create_user body = create "users" ("users" ∷ []) body

abbrev pub use_update_user : String → Body → Mutation
use_update_user id body = update "users" patch ("users" ∷ []) id body

abbrev pub use_reset_user_password : String → String → Mutation
use_reset_user_password id new_password = record {
  request =
      send post ("users" ∷ id ∷ "reset-password" ∷ [])
        (some (("new_password", Value.text new_password) ∷ []));
  invalidates = [];
}

-- alerts.ts
abbrev pub use_alerts : Option Params → Query
use_alerts params = list_query "alerts" ("alerts" ∷ []) 100 params

abbrev pub use_alert_summary : Query
use_alert_summary = record {
  key = name "alerts" ∷ name "summary" ∷ [];
  request = fetch ("alerts" ∷ "summary" ∷ []) [];
  expects = single;
  enabled = true;
}

abbrev pub use_acknowledge_alert : String → Mutation
use_acknowledge_alert id = record {
  request = send post ("alerts" ∷ id ∷ "acknowledge" ∷ []) none;
  invalidates = (name "alerts" ∷ []) ∷ [];
}

-- auditLogs.ts
abbrev pub use_audit_logs : Option Params → Query
use_audit_logs params = list_query "audit-logs" ("audit" ∷ []) 50 params

-- dashboard.ts
abbrev pub use_dashboard_summary : Query
use_dashboard_summary = dashboard_query "summary" single

abbrev pub use_dashboard_alerts : Query
use_dashboard_alerts = dashboard_query "alerts" listed

abbrev pub use_dashboard_capacity : Query
use_dashboard_capacity = dashboard_query "capacity" single

-- search.ts
abbrev pub use_search : (String → String) → String → Query
use_search trim q = record {
  key = name "search" ∷ name q ∷ [];
  request = fetch ("search" ∷ []) (("q", text q) ∷ []);
  expects = single;
  enabled = is_given (trim q);
}
