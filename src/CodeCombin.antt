-- ===== src/CodeCombin.antt =====
-- Code combination, include/codecombin.h and common/codecombin.cpp: generated code is brought into a
-- file that its user has changed.
pub mod Element
pub mod Parts
pub mod Combine
pub mod Lookup
pub mod Copies
pub mod Merge
pub mod Combined
pub mod Names
pub mod Kept
pub mod Finishes
pub mod Save
pub mod Stream
pub mod Load
pub mod Lengths
pub mod TextEnds
pub mod FileEnds
pub mod Gathered
pub mod LineLoads
pub mod TextLoads
pub mod Inside
mod Examples
pub mod Front
