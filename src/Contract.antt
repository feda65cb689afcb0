-- ===== src/Contract.antt =====
-- pkg/contract: the scripts that a token contract consists of, and what they do to its figures.
pub mod Script
pub mod Scripts
pub mod Tokens
pub mod TokenTransfers
pub mod TokenMints
pub mod TokenFreezes
mod Tests
