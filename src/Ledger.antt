-- ===== src/Ledger.antt =====
-- src/ledger: what a request cost, and the budgets that it is held against.
pub mod Budget
pub mod Writer
pub mod Cost
