-- ===== src/Mqtt.antt =====
-- internal/mqtt/server.go: the topics of a device, and the hooks that the broker calls. The broker is
-- a library: its calls of the hooks are the events of the modules below, in the order in which it
-- makes them, and what it makes of a published payload is part of a packet.
pub mod Topics
pub mod Hooks
