-- ===== src/Examples.antt =====
-- Concrete instances of the properties: whole numbers for the decimal types, and small books,
-- positions and blocks.
mod Scale
mod Books
mod Snapshots
mod Positions
mod Contracts
mod Fills
mod Exchanges
mod Accounts
mod Blocks
mod Events
