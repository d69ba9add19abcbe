-- ===== src/Kernel.antt =====
-- pkg/kernel: the handlers of agents. Here is the table that a model fills in (Kernel/Table).
pub mod Table
pub mod Review
pub mod Agents
pub mod Rows
pub mod Actions
pub mod Chat
