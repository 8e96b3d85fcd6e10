-- ===== src/Examples.antt =====
-- Concrete runs of the parts of the model, and concrete inputs for its theorems.
mod Addresses
mod Beats
mod Commands
mod Datagrams
mod Files
mod Introducer
mod Ftp
mod Members
mod Replication
mod Ring
mod Streams
mod Survival
mod System
