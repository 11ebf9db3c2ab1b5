-- ===== src/Codegen/Generator.antt =====
-- codegen/generator/: from the text of a model to a model whose references are linked.
pub mod Text
pub mod Model
pub mod Scanner
pub mod Parsed
pub mod Names
pub mod Sections
pub mod Blocks
pub mod Parser
pub mod Validate
pub mod Generate
pub mod Tests
