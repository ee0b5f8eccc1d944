-- ===== src/Tests.antt =====
-- Concrete servers and libraries, which meet what the theorems assume of them, and the theorems at
-- concrete inputs.
mod Codec
mod Rows
mod Env
mod Sessions
mod Limits
mod Http
mod UseCases
mod Web
mod Wires
mod Schema
mod Setup
mod Admin
