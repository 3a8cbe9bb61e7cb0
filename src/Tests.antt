-- ===== src/Tests.antt =====
-- Each theorem at a concrete input.
mod Glass
mod Panel
mod Wire
mod Program
mod Steady
mod Fixtures
mod Lanes
mod Tables
mod Drivers
mod Sensors
mod Commands
