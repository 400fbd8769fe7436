-- ===== src/Http/Trails.antt =====
-- The administrator's views of what the consumers wrote (notification/handler.go and
-- audit/handler.go).
use Prim.Native.String.{String}
use crisis_link.Common.{ℕ, Option, [], ◌∷◌, if◌then◌else◌}
use crisis_link.Common.Int.{ℤ}
use crisis_link.Table.{Table}
use crisis_link.Roles.{Actor, admin, holds_role}
use crisis_link.Consumers.{Logs, Notification, Entry, list_recent, list_audit}
use crisis_link.Http.{Reply, success, refused, clamp_int}

-- GET /admin/notifications
unfoldable pub list_notifications : Actor → Option ℤ → Logs → Reply (Table Notification)
unfolding list_recent holds_role
list_notifications actor limit logs =
    if holds_role actor (admin ∷ [])
    then success 200 (list_recent (clamp_int limit 20 1 200) logs)
    else refused

-- GET /admin/audit
unfoldable pub list_trail : Actor → String → Option ℕ → Option ℤ → Logs → Reply (Table Entry)
unfolding list_audit holds_role
list_trail actor aggregate_type aggregate_id limit logs =
    if holds_role actor (admin ∷ [])
    then success 200 (list_audit aggregate_type aggregate_id (clamp_int limit 50 1 200) logs)
    else refused
