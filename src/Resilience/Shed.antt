-- ===== src/Resilience/Shed.antt =====
-- src/resilience/shed.ts, the load-shed guard: per provider a counting semaphore with a bounded
-- queue. A request is a ticket number. A promise that is not resolved at once is the answer
-- `waiting`; it is resolved with a slot by the `release` that returns its ticket, or with null by
-- its own `abort`.
pub mod Balance
pub mod Fifo
use vibe_ai_router.Common.{
  ℕ, String, Bool, true, false, ◌&&◌, Option, none, some, List, [], ◌∷◌, ◌++◌, leb, ◌==◌, length,
  ◌or_else◌, if◌then◌else◌,
}
use vibe_ai_router.Common.Int.{ℤ, pos, ◌+ℤ◌, ◌-ℤ◌, ltb_ℤ}
use vibe_ai_router.Common.Dict
use vibe_ai_router.Common.Dict.{Dict}

pub record LoadShedGuard : Type 0 where
  pub max_concurrent : ℕ
  pub queue_cap : ℕ
  pub in_flight : Dict ℤ
  pub queues : Dict (List ℕ)

abbrev pub new_guard : ℕ → ℕ → LoadShedGuard
new_guard max_concurrent queue_cap = record {
  max_concurrent = max_concurrent;
  queue_cap = queue_cap;
  in_flight = [];
  queues = [];
}

pub data Admission : Type 0 where
  granted waiting shed : Admission

-- `stats`
unfoldable pub flying : String → LoadShedGuard → ℤ
flying provider_id g = Dict.get provider_id g.in_flight or_else pos 0

unfoldable pub queue_of : String → LoadShedGuard → List ℕ
queue_of provider_id g = Dict.get provider_id g.queues or_else []

abbrev set_flying : String → ℤ → LoadShedGuard → LoadShedGuard
set_flying provider_id n g = record g { in_flight = Dict.put provider_id n g.in_flight }

abbrev set_queue : String → List ℕ → LoadShedGuard → LoadShedGuard
set_queue provider_id q g = record g { queues = Dict.put provider_id q g.queues }

unfoldable pub acquire : String → ℕ → LoadShedGuard → LoadShedGuard × Admission
acquire provider_id ticket g =
    if ltb_ℤ (flying provider_id g) (pos g.max_concurrent)
    then (set_flying provider_id (flying provider_id g +ℤ pos 1) g, granted)
    else if leb g.queue_cap (length (queue_of provider_id g))
    then (g, shed)
    else (set_queue provider_id (queue_of provider_id g ++ ticket ∷ []) g, waiting)

-- `queue.splice(queue.indexOf(entry), 1)`
unfoldable pub splice : ℕ → List ℕ → List ℕ
splice ticket [] = []
splice ticket (t ∷ ts) = let rest = splice ticket ts in if t == ticket then ts else t ∷ rest

-- `queue.indexOf(entry) !== -1`
unfoldable pub is_queued : ℕ → List ℕ → Bool
is_queued ticket [] = false
is_queued ticket (t ∷ ts) = let rest = is_queued ticket ts in if t == ticket then true else rest

-- The listener on the abort signal of a waiting request; the answer says whether it resolved the
-- promise with null.
unfoldable pub abort : String → ℕ → LoadShedGuard → LoadShedGuard × Bool
abort provider_id ticket g =
    if is_queued ticket (queue_of provider_id g)
    then (set_queue provider_id (splice ticket (queue_of provider_id g)) g, true)
    else (g, false)

-- The end of `release`, on the queue that it finds: the ticket is the one that is let in.
unfoldable pub hand_over : String → List ℕ → LoadShedGuard → LoadShedGuard × Option ℕ
hand_over provider_id [] g = (g, none)
hand_over provider_id (t ∷ ts) g =
    if ltb_ℤ (flying provider_id g) (pos g.max_concurrent)
    then (
      set_flying provider_id (flying provider_id g +ℤ pos 1) (set_queue provider_id ts g),
      some t,
    )
    else (g, none)

unfoldable pub release : String → LoadShedGuard → LoadShedGuard × Option ℕ
release provider_id g =
    let current = (Dict.get provider_id g.in_flight or_else pos 1) -ℤ pos 1 in
    hand_over provider_id (queue_of provider_id g) (set_flying provider_id current g)
