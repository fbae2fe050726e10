-- ===== src/Witnesses.antt =====
-- Runs of the theorems on concrete inputs, by component.
mod Sets
mod Masks
mod Sockets
mod Libraries
mod Names
mod Processes
mod Addresses
mod Toy
mod Wires
mod Clients
mod Closings
mod Frames
mod Archives
mod Packets
mod Errors
mod Registry
mod Startups
