-- ===== src/Tests.antt =====
-- Concrete inputs for the model.
mod Codec
mod Chain
mod Ethereum
mod Middleware
mod Canceling
mod Node
mod Recording
mod Errors
mod Indexers
mod Polling
mod Services
mod Requests
mod Amounts
mod Stores
mod Groups
mod Pages
mod Running
mod Counters
