-- ===== src/Tests.antt =====
-- The theorems at concrete inputs, one file for each part of chat/.
mod Lru
mod Registry
mod Frames
mod Settings
mod Tokens
mod Texts
mod Delivery
mod Handlers
mod Consumer
mod Background
mod Client
mod Pushes
mod Startup
mod Metrics
mod System
mod Downward
