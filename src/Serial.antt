-- ===== src/Serial.antt =====
-- internal/serialconsole/hub.go: the live streams between QEMU's serial devices and their clients.
-- The hub, which starts, finds and stops the sessions, is left out.
pub mod Session
