-- ===== src/Data/Tables.antt =====
-- The tables and functions that the gateway and the data endpoints admit.
use text.Mathlib.Text.{◌==◌ as str_eq}
use urban_farming_backend.Prelude.{
  Bool, Option, none, some, String, List, [], ◌∷◌, ◌++◌, any, if◌then◌else◌,
}

-- `x in xs`
abbrev pub mem : String → List String → Bool
mem x xs = any (λ y. str_eq y x) xs

-- `d.get(k)` of a dictionary of texts
abbrev pub lookup : String → List (String × String) → Option String
lookup k [] = none
lookup k ((j, v) ∷ d) = let rest = lookup k d in if str_eq j k then some v else rest

-- `PUBLIC_TABLES`
unfoldable pub public_tables : List String
public_tables =
    "crops" ∷ "inventory_aggregate" ∷ "grower_events" ∷ "grower_dashboard_tips"
    ∷ "community_spotlights" ∷ "grower_impact_factors" ∷ "green_point_rules" ∷ []

-- `ALLOWED_TABLES`, without the public ones
unfoldable pub further_tables : List String
further_tables =
    "assessment_leads" ∷ "buyer_profiles" ∷ "calculator_plans" ∷ "collections" ∷ "contact_messages"
    ∷ "crop_batches" ∷ "garden_activity_logs" ∷ "garden_requests" ∷ "garden_tasks"
    ∷ "green_point_transactions" ∷ "grower_event_registrations" ∷ "grower_stats" ∷ "harvests"
    ∷ "inspection_assignments" ∷ "inspection_checklist_items" ∷ "inspection_photos"
    ∷ "inspection_reports" ∷ "inspector_applications" ∷ "inspector_application_options"
    ∷ "inspectors" ∷ "installations" ∷ "newsletter_subscriptions" ∷ "mobile_push_tokens"
    ∷ "order_items" ∷ "orders" ∷ "profiles" ∷ "properties" ∷ "operational_workflows"
    ∷ "workflow_stages" ∷ "workflow_stage_events" ∷ "user_roles" ∷ "user_settings" ∷ []

-- `ALLOWED_RPCS`
unfoldable pub allowed_rpcs : List String
allowed_rpcs =
    "admin_dashboard_order_status" ∷ "admin_dashboard_overview" ∷ "admin_dashboard_recent_messages"
    ∷ "admin_dashboard_recent_orders" ∷ "admin_dashboard_summary" ∷ "admin_dashboard_top_crops"
    ∷ "admin_dashboard_trends" ∷ "admin_users_directory" ∷ "admin_users_trends"
    ∷ "apply_inspection_request_decision" ∷ "start_inspection_report" ∷ "submit_inspection_report"
    ∷ []

-- `ADMIN_READ_TABLES`
unfoldable pub admin_read_tables : List String
admin_read_tables =
    "inspection_assignments" ∷ "inspection_checklist_items" ∷ "inspection_photos"
    ∷ "inspection_reports" ∷ "inspectors" ∷ "operational_workflows" ∷ "order_items"
    ∷ "workflow_stages" ∷ "workflow_stage_events" ∷ []

-- `ADMIN_MUTATION_TABLES`
unfoldable pub admin_mutation_tables : List String
admin_mutation_tables =
    "garden_requests" ∷ "inspection_assignments" ∷ "installations" ∷ "properties" ∷ []

-- `USER_MUTATION_TABLES`
unfoldable pub user_mutation_tables : List String
user_mutation_tables =
    "buyer_profiles" ∷ "calculator_plans" ∷ "garden_activity_logs" ∷ "garden_requests"
    ∷ "garden_tasks" ∷ "grower_event_registrations" ∷ "installations" ∷ "profiles" ∷ "properties"
    ∷ "user_settings" ∷ []

-- `ADMIN_RPCS`
unfoldable pub admin_rpcs : List String
admin_rpcs =
    "admin_dashboard_order_status" ∷ "admin_dashboard_overview" ∷ "admin_dashboard_recent_messages"
    ∷ "admin_dashboard_recent_orders" ∷ "admin_dashboard_summary" ∷ "admin_dashboard_top_crops"
    ∷ "admin_dashboard_trends" ∷ "admin_users_directory" ∷ "admin_users_trends"
    ∷ "apply_inspection_request_decision" ∷ []

abbrev pub allowed_tables : List String
allowed_tables = public_tables ++ further_tables

abbrev pub inspector_rpcs : List String
inspector_rpcs = "start_inspection_report" ∷ "submit_inspection_report" ∷ []

-- `OWNER_COLUMNS`
unfoldable pub owner_columns : List (String × String)
owner_columns =
    ("buyer_profiles", "user_id")
    ∷ ("calculator_plans", "user_id")
    ∷ ("collections", "owner_id")
    ∷ ("contact_messages", "user_id")
    ∷ ("crop_batches", "owner_id")
    ∷ ("garden_activity_logs", "owner_id")
    ∷ ("garden_requests", "owner_id")
    ∷ ("garden_tasks", "owner_id")
    ∷ ("green_point_transactions", "owner_id")
    ∷ ("grower_event_registrations", "user_id")
    ∷ ("grower_stats", "user_id")
    ∷ ("harvests", "owner_id")
    ∷ ("installations", "owner_id")
    ∷ ("orders", "buyer_id")
    ∷ ("profiles", "id")
    ∷ ("properties", "owner_id")
    ∷ ("user_roles", "user_id")
    ∷ ("user_settings", "user_id")
    ∷ []

abbrev pub owner_column : String → Option String
owner_column table = lookup table owner_columns
