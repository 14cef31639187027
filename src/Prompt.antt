-- ===== src/Prompt.antt =====
-- The prompt builder: context_cache/prompt_builder.py. Prompt/Defs.antt has the functions,
-- Prompt/Framing.antt and Prompt/Budget.antt are about the final check of the budget,
-- Prompt/Builds.antt about whole prompts, Prompt/Newest.antt about their last message,
-- Prompt/Desk.antt about the desk that a prompt is built with.
pub mod Defs
pub mod Framing
pub mod Budget
pub mod Builds
pub mod Newest
pub mod Desk
pub use Defs.{PromptBudget, GovernedPrompt}
