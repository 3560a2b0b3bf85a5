-- ===== src/Scheduler/Offers/Repeated.antt =====
-- What `offers` of src/scheduler/scheduler_impl.rs does with a task that fits several offers of one
-- call: the list of requested tasks is read once, before the loop over the offers.
use torc_scheduler.Mesos.{Offer, TaskInfo}
use torc_scheduler.Prelude.{◌≡◌, false, List, [], ◌∷◌}
use torc_scheduler.Records.{Task}
use torc_scheduler.Scheduler.Offers.{Seen, read_offer, is_elsewhere, is_too_small}

-- The task may run where each of the offers comes from, and fits into it.
abbrev pub FitsEach : Task → Seen → List Offer → Type 0
FitsEach t seen [] = Unit
FitsEach t seen (o ∷ os) =
    (is_elsewhere (read_offer o seen) t ≡ false)
    × (is_too_small (read_offer o seen) t ≡ false)
    × FitsEach t (read_offer o seen) os

-- One launch of the same task for each offer.
abbrev pub copies : TaskInfo → List Offer → List TaskInfo
copies info [] = []
copies info (o ∷ os) = info ∷ copies info os
