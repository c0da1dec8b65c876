-- ===== src/Examples.antt =====
-- Concrete instances of the interfaces, runs of the model, and the theorems at inputs that meet their
-- hypotheses.
mod Memory
mod Messages
mod Lanes
mod Gates
mod Queues
mod Streams
mod Nets
mod Relays
mod Sessions
mod Clients
mod Servers
mod Senders
mod Outputs
mod Disks
mod Starts
mod Orders
