-- ===== src/Acl.antt =====
-- bp_router/acl.py: the firewall-style evaluator. One ordered list of rules, the first match wins,
-- the default is to deny, and a call of an agent by itself is always denied.
pub mod Grammar
pub mod Rules
pub mod Eval
pub mod Labels
pub mod Globs
pub mod FirstMatch
pub mod Walks
pub mod Tiers
mod Examples
