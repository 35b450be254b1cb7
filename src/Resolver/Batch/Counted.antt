-- ===== src/Resolver/Batch/Counted.antt =====
-- The count of stored mentions, before a bite and after it.
use entity_resolution_engine.Base.{ℕ, ◌+◌, length, ◌≡◌, if◌then◌else◌, ltb, leb, ◌&&◌}
use entity_resolution_engine.Model.Errors.{ok}
use entity_resolution_engine.World.{World, Platform, select}
use entity_resolution_engine.World.Keeps.{Keeps, outside, Keeps-tables-read, Keeps-outside-call}
use entity_resolution_engine.World.Steps.{call-eq-ok}
use entity_resolution_engine.Repositories.Mentions

-- The trainings that a bite of `size` mentions starts, on `stored` earlier ones.
abbrev pub trainings_started : ℕ → ℕ → ℕ → ℕ
trainings_started threshold stored size =
    if leb threshold 0
    then 0
    else if ltb stored threshold && leb threshold (stored + size)
    then 1
    else 0

module _ (P : Platform) where
  pub count-Keeps-tables : Keeps (λ w. w.tables) (Mentions.count P)
  unfolding Mentions.count select
  count-Keeps-tables = Keeps-tables-read P (λ w. length w.tables.mentions)

  pub count-Keeps-outside : Keeps outside (Mentions.count P)
  unfolding Mentions.count select
  count-Keeps-outside = Keeps-outside-call P (λ w. length w.tables.mentions) (λ w. w.tables)

pub count-eq-ok :
    (P : Platform) (w : World) {n : ℕ}
    → (Mentions.count P w).0 ≡ ok n
    → (length w.tables.mentions ≡ n) × ((Mentions.count P w).1.tables ≡ w.tables)
unfolding Mentions.count select
count-eq-ok P w h = call-eq-ok P (λ w. length w.tables.mentions) (λ w. w.tables) w h
