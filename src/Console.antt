-- ===== src/Console.antt =====
-- cmd/console/app: the handlers of the console's API, one module for each file of its api folder.
pub mod Findings
pub mod Actions
pub mod Tokens
mod Tests
