-- ===== src/Dashboard.antt =====
-- What the server is doing: the overview (web/src/components/dashboard/Dashboard.js) and the monitor of
-- its load (Monitoring.js there, web/src/api/monitor.js).
pub mod Overview
pub mod Monitor
pub mod Drawing
pub mod Failing
