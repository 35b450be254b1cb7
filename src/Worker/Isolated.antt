-- ===== src/Worker/Isolated.antt =====
-- A bite is processed to its end whatever fails: the database, the linker, a response that cannot be
-- serialised, or the response queue.
use mathlib.Core.List.Sublist
use mathlib.Core.List.{Sublist}
use entity_resolution_engine.Base.{Bool, ℕ, Option, none, List, length, ◌≡◌}
use entity_resolution_engine.World.{World}
use entity_resolution_engine.World.Yields.{Yields}
use entity_resolution_engine.Queue.{Raw}
use entity_resolution_engine.Service.Requests.{EreResponse}
use entity_resolution_engine.Worker.Messages.{QueueWorker, payloads}
use entity_resolution_engine.Worker.Answers.{InOrder, ReadsIds}

module _ {M I P : Type 0} (W : QueueWorker M I P) (reads : ReadsIds W) where
  -- What a bite may push: payloads of its replies, in their order, all of them if the queue does not fail.
  abbrev pub Pushes : Option (ℕ → Bool) → List Raw → ℕ × List P → Type 0
  Pushes fault bite a =
      (a.0 ≡ length bite)
      × ((rs : List (Option (EreResponse I))) × InOrder W reads bite rs
          × Sublist a.1 (payloads W rs)
          × (fault ≡ none → a.1 ≡ payloads W rs))
