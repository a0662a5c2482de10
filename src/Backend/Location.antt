-- ===== src/Backend/Location.antt =====
-- backend/subscribers/locationSubscriber.js: geofences, alerts and the processing of an entry.
pub mod Polygon
pub mod Alerts
pub mod Entry
pub mod Published
