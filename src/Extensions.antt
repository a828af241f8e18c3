-- ===== src/Extensions.antt =====
-- The extension subsystem of app/src/extensions: the permissions and match patterns, and the alarms.
pub mod Permissions
pub mod Alarms
