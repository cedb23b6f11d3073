-- ===== src/Tests.antt =====
-- Tests of the model at concrete inputs, and instances of the theorems, over fixed-point numbers.
mod Positions
mod Guards
mod Books
mod Signals
mod Feeds
mod Scores
mod Wire
mod Averages
mod Orders
mod Pipes
mod Bot
mod Consoles
mod Databases
mod Choices
mod Correlations
