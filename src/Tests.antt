-- ===== src/Tests.antt =====
-- Concrete runs of the model: the data in Data, and each theorem with conditions at one input.
pub mod Data
pub mod TableWitnesses
pub mod RunWitnesses
pub mod HandlerWitnesses
pub mod JournalWitnesses
pub mod JournaledWitness
pub mod PlannerWitnesses
pub mod ValidationWitnesses
pub mod ToolWitnesses
pub mod DiscoveryWitnesses
pub mod ExecutorWitnesses
pub mod WriterWitness
pub mod StructuredWitness
