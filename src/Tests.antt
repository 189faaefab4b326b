-- ===== src/Tests.antt =====
-- Runs of the model at concrete inputs, and the theorems applied to them.
mod Labels
mod Tables
mod Packets
mod Routers
mod Sessions
mod Routes
mod Daemons
mod Timers
mod Mains
mod Tunnels
mod Repeats
mod Checksums
mod Traces
mod Updates
mod Typed
mod Networks
mod Displays
mod Prototypes
mod Netlinks
mod Layouts
mod Hops
