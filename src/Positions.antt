-- ===== src/Positions.antt =====
-- The positions package: positions/models.py and the children, one for each file of the package.
pub mod Models
pub mod Cvd
pub mod Weakness
pub mod Trail
pub mod Machine
pub mod Ratchet
pub mod Exits
pub mod Registry
pub mod Books
pub mod Rounds
pub mod Foreign
pub mod Engine
