-- ===== src/RewriteHeader.antt =====
-- src/rewrite_header.cxx, a program that brings the comment at the head of a source file into a
-- standard form. The children are: texts, the years of the copyright line, the class `Header`,
-- and the function `process`.
pub mod Text
pub mod Years
pub mod Header
pub mod Process
pub mod Main
