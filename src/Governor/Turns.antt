-- ===== src/Governor/Turns.antt =====
-- A whole turn: the user's message is recorded, and the prompt is built.
use library_of_context.Models.{str_eq}
use library_of_context.Ring
use library_of_context.Ring.Fitting
use library_of_context.Store.{Store}
