-- ===== src/Examples.antt =====
-- Concrete inputs at which the theorems apply.
mod SimpleJson
mod Scene
mod Updates
mod Hosting
mod Messages
mod Callbacks
mod Reached
mod JavaCalls
mod Programs
mod SimpleBrowser
mod Pages
