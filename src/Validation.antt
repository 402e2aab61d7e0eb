-- ===== src/Validation.antt =====
-- src/validation: what a request may name, and how large it may be.
pub mod KeyGrammar
pub mod LongestPrefix
pub mod SizeCaps
pub mod PrefixPolicy
