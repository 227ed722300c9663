-- ===== src/Examples.antt =====
-- Concrete parameters, and the theorems at concrete inputs.
mod Toy
mod Files
mod Records
mod Tables
mod Versions
mod Numbers
mod Reopened
mod ReadAgain
mod Later
mod Startup
mod Fuse
mod Network
mod Storage
mod Client
mod Serving
