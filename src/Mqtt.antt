-- ===== src/Mqtt.antt =====
-- mqtt/src: the bridge between one air conditioner and MQTT.
pub mod Control
pub mod Modes
pub mod Cell
pub mod Topics
pub mod Bridge
