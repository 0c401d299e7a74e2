-- ===== src/Wecom.antt =====
-- Contact ways of backend/wecom_contact_way_rotation.go.
pub mod State
pub mod RoundTrip
pub mod Rotation
