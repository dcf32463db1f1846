-- ===== src/Tests.antt =====
-- Concrete inputs for the theorems: a sorting function for the C library's, and sample data.
mod Sorting
mod Samples
mod Stages
mod Fields
mod Trees
mod Queries
mod Cmdline
mod Threading
mod Running
mod FlowTools
mod Readers
