-- ===== src/Layout.antt =====
-- What a user may see (web/src/service/permission.js, web/src/common/auth.js) and the menu of the
-- manager's pages (web/src/layout/ManagerLayout.js).
pub mod Permission
pub mod Menu
pub mod Routers
pub mod Breadcrumb
pub mod Columns
pub mod Sider
pub mod Worker
