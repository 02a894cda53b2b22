-- ===== src/Query.antt =====
-- src/query: the syntax of queries, their validation, parsing, planning and matching.
pub mod Ast
pub mod Validator
pub mod Parser
pub mod Planner
pub mod Matcher
pub mod Optimizer
