-- ===== src/Lifecycle/Windows.antt =====
-- The windows of the two jobs, in whole days (apps/backend/src/lib/subscription-lifecycle.ts).
use finskool_monorepo.Lifecycle.{expiring_1, expiring_1}
