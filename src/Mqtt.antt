-- ===== src/Mqtt.antt =====
-- internal/mqtt: device identifiers, the events of the bridges, their dispatch.
pub mod Event
pub mod Address
pub mod Dispatcher
pub mod Tasmota
pub mod Bridge
pub mod Manager
