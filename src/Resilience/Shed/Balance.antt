-- ===== src/Resilience/Shed/Balance.antt =====
-- The guard with the requests that hold a slot: the count is exact, the limits are kept, and
-- nobody waits while a slot is free.
use vibe_ai_router.Common.{
  ℕ, ◌or_else◌, ◌+◌, ◌-◌, ◌≤◌, ◌<◌, String, ◌≡◌, refl, ap, ◌∙◌, Option, none, some, List, [], ◌∷◌,
  ◌++◌, arith, str_eq, eq_iff, length, length-append, if◌then◌else◌,
}
use vibe_ai_router.Common.Int.{ℤ, pos, negsuc, ◌+ℤ◌, ◌-ℤ◌}
use vibe_ai_router.Common.Dict
use vibe_ai_router.Common.Dict.{get-put}
use vibe_ai_router.Resilience.Shed.{
  LoadShedGuard, new_guard, Admission, granted, flying, queue_of, set_flying, set_queue, acquire,
  splice, abort, hand_over, release,
}

pub flying-set_flying :
    (p q : String) (n : ℤ) (g : LoadShedGuard)
    → flying q (set_flying p n g) ≡ (if str_eq p q then n else flying q g)
unfolding flying
flying-set_flying p q n g = ground (arith, get-put p q n g.in_flight)

pub flying-set_queue :
    (p q : String) (l : List ℕ) (g : LoadShedGuard) → flying q (set_queue p l g) ≡ flying q g
unfolding flying
flying-set_queue p q l g = refl

pub queue_of-set_queue :
    (p q : String) (l : List ℕ) (g : LoadShedGuard)
    → queue_of q (set_queue p l g) ≡ (if str_eq p q then l else queue_of q g)
unfolding queue_of
queue_of-set_queue p q l g = ground (arith, get-put p q l g.queues)

pub queue_of-set_flying :
    (p q : String) (n : ℤ) (g : LoadShedGuard) → queue_of q (set_flying p n g) ≡ queue_of q g
unfolding queue_of
queue_of-set_flying p q n g = refl

-- A guard with the number of requests that hold a slot, per provider.
pub record World : Type 0 where
  pub guard : LoadShedGuard
  pub holders : String → ℕ

abbrev pub holding : String → ℕ → (String → ℕ) → String → ℕ
holding p n f q = if str_eq p q then n else f q

-- How many slots an answer of `acquire` or `release` gives.
abbrev pub gives : Admission → ℕ
gives granted = 1
gives _ = 0

abbrev hands : Option ℕ → ℕ
hands none = 0
hands (some _) = 1

-- Requests come, give up waiting, and leave; only a request that holds a slot releases one.
pub data Step (w : World) : World → Type 0 where
  enter :
      (p : String) (ticket : ℕ)
      → Step w (record {
        guard = (acquire p ticket w.guard).0;
        holders = holding p (w.holders p + gives (acquire p ticket w.guard).1) w.holders;
      })
  quit : (p : String) (ticket : ℕ) → Step w (record w { guard = (abort p ticket w.guard).0 })
  leave :
      (p : String)
      → 0 < w.holders p
      → Step w (record {
        guard = (release p w.guard).0;
        holders = holding p (w.holders p - 1 + hands (release p w.guard).1) w.holders;
      })

pub data Reach (w : World) : World → Type 0 where
  here : Reach w w
  next : {u v : World} → Reach w u → Step u v → Reach w v

-- The state of one provider under the guard's limits.
pub record IsBalanced (most room : ℕ) (w : World) (p : String) : Type 0 where
  pub counted : flying p w.guard ≡ pos (w.holders p)
  pub bounded : w.holders p ≤ most
  pub queued : length (queue_of p w.guard) ≤ room
  pub busy : 0 < length (queue_of p w.guard) → w.holders p ≡ most

pub record IsSafe (most room : ℕ) (w : World) : Type 0 where
  pub most_fits : w.guard.max_concurrent ≡ most
  pub room_fits : w.guard.queue_cap ≡ room
  pub balanced : (p : String) → IsBalanced most room w p

enter-IsBalanced :
    (most room : ℕ) (w : World) (p q : String) (ticket : ℕ)
    → IsSafe most room w
    → IsBalanced most room w q
    → IsBalanced most room
        (record {
          guard = (acquire p ticket w.guard).0;
          holders = holding p (w.holders p + gives (acquire p ticket w.guard).1) w.holders;
        })
        q
unfolding acquire ◌+ℤ◌
enter-IsBalanced most room w p q ticket s h = ground (
  arith,
  flying-set_flying p q (flying p w.guard +ℤ pos 1) w.guard,
  queue_of-set_flying p q (flying p w.guard +ℤ pos 1) w.guard,
  flying-set_queue p q (queue_of p w.guard ++ ticket ∷ []) w.guard,
  queue_of-set_queue p q (queue_of p w.guard ++ ticket ∷ []) w.guard,
  length-append (queue_of p w.guard) (ticket ∷ []),
  s.balanced p,
  eq_iff p q,
)

length-splice-le : (ticket : ℕ) (ts : List ℕ) → length (splice ticket ts) ≤ length ts
unfolding splice
length-splice-le ticket [] = omega arith
length-splice-le ticket (t ∷ ts) = ground (arith, length-splice-le ticket ts)

quit-IsBalanced :
    (most room : ℕ) (w : World) (p q : String) (ticket : ℕ)
    → IsSafe most room w
    → IsBalanced most room w q
    → IsBalanced most room (record w { guard = (abort p ticket w.guard).0 }) q
unfolding abort
quit-IsBalanced most room w p q ticket s h = ground (
  arith,
  flying-set_queue p q (splice ticket (queue_of p w.guard)) w.guard,
  queue_of-set_queue p q (splice ticket (queue_of p w.guard)) w.guard,
  length-splice-le ticket (queue_of p w.guard),
  s.balanced p,
  eq_iff p q,
)

one_less :
    (o : Option ℤ) (n : ℕ)
    → 0 < n
    → (o or_else pos 0) ≡ pos n
    → (o or_else pos 1) -ℤ pos 1 ≡ pos (n - 1)
unfolding ◌-ℤ◌
one_less none n h e = ground arith
one_less (some (pos m)) n h e = ground arith
one_less (some (negsuc m)) n h e = ground arith

-- A release that gives back a slot counts one less, then looks at the queue.
pub release-eq-hand_over :
    (p : String) (n : ℕ) (g : LoadShedGuard)
    → 0 < n
    → flying p g ≡ pos n
    → release p g ≡ hand_over p (queue_of p g) (set_flying p (pos (n - 1)) g)
unfolding release flying
release-eq-hand_over p n g h e =
    ap (λ c. hand_over p (queue_of p g) (set_flying p c g))
      (one_less (Dict.get p g.in_flight) n h e)

hand_over-IsBalanced :
    (most room : ℕ) (w : World) (p q : String) (ts : List ℕ)
    → IsSafe most room w
    → 0 < w.holders p
    → queue_of p w.guard ≡ ts
    → IsBalanced most room
        (record {
          guard = (hand_over p ts (set_flying p (pos (w.holders p - 1)) w.guard)).0;
          holders =
              holding p
                (w.holders p
                  - 1
                  + hands (hand_over p ts (set_flying p (pos (w.holders p - 1)) w.guard)).1)
                w.holders;
        })
        q
unfolding hand_over ◌+ℤ◌
hand_over-IsBalanced most room w p q [] s h e = ground (
  arith,
  flying-set_flying p q (pos (w.holders p - 1)) w.guard,
  queue_of-set_flying p q (pos (w.holders p - 1)) w.guard,
  s.balanced p,
  s.balanced q,
  eq_iff p q,
)
hand_over-IsBalanced most room w p q (t ∷ ts) s h e =
    let g = set_flying p (pos (w.holders p - 1)) w.guard in
    ground (
      arith,
      flying-set_flying p q (pos (w.holders p - 1)) w.guard,
      flying-set_flying p p (pos (w.holders p - 1)) w.guard,
      queue_of-set_flying p q (pos (w.holders p - 1)) w.guard,
      flying-set_queue p p ts g,
      flying-set_queue p q ts g,
      flying-set_flying p q (flying p g +ℤ pos 1) (set_queue p ts g),
      queue_of-set_flying p q (flying p g +ℤ pos 1) (set_queue p ts g),
      queue_of-set_queue p q ts g,
      s.balanced p,
      s.balanced q,
      eq_iff p q,
      eq_iff p p,
    )

leave-IsBalanced :
    (most room : ℕ) (w : World) (p q : String)
    → IsSafe most room w
    → 0 < w.holders p
    → IsBalanced most room
        (record {
          guard = (release p w.guard).0;
          holders = holding p (w.holders p - 1 + hands (release p w.guard).1) w.holders;
        })
        q
leave-IsBalanced most room w p q s h =
    rw (release-eq-hand_over p (w.holders p) w.guard h (s.balanced p).counted)
      (hand_over-IsBalanced most room w p q (queue_of p w.guard) s h refl)

-- The limits of a guard never change.
abbrev SameLimits : LoadShedGuard → LoadShedGuard → Type 0
SameLimits g g' = (g'.max_concurrent ≡ g.max_concurrent) × (g'.queue_cap ≡ g.queue_cap)

limits-acquire : (p : String) (ticket : ℕ) (g : LoadShedGuard) → SameLimits g (acquire p ticket g).0
unfolding acquire
limits-acquire p ticket g = ground arith

limits-abort : (p : String) (ticket : ℕ) (g : LoadShedGuard) → SameLimits g (abort p ticket g).0
unfolding abort
limits-abort p ticket g = ground arith

limits-hand_over :
    (p : String) (ts : List ℕ) (g : LoadShedGuard) → SameLimits g (hand_over p ts g).0
unfolding hand_over
limits-hand_over p [] g = (refl, refl)
limits-hand_over p (t ∷ ts) g = ground arith

limits-release : (p : String) (g : LoadShedGuard) → SameLimits g (release p g).0
unfolding release
limits-release p g = limits-hand_over p (queue_of p g) (set_flying p _ g)

Step-IsSafe : (most room : ℕ) {w v : World} → Step w v → IsSafe most room w → IsSafe most room v
Step-IsSafe most room {w} (enter p ticket) s = record {
  most_fits = (limits-acquire p ticket w.guard).0 ∙ s.most_fits;
  room_fits = (limits-acquire p ticket w.guard).1 ∙ s.room_fits;
  balanced = λ q. enter-IsBalanced most room w p q ticket s (s.balanced q);
}
Step-IsSafe most room {w} (quit p ticket) s = record {
  most_fits = (limits-abort p ticket w.guard).0 ∙ s.most_fits;
  room_fits = (limits-abort p ticket w.guard).1 ∙ s.room_fits;
  balanced = λ q. quit-IsBalanced most room w p q ticket s (s.balanced q);
}
Step-IsSafe most room {w} (leave p h) s = record {
  most_fits = (limits-release p w.guard).0 ∙ s.most_fits;
  room_fits = (limits-release p w.guard).1 ∙ s.room_fits;
  balanced = λ q. leave-IsBalanced most room w p q s h;
}

-- Nobody holds a slot of a new guard.
abbrev pub start : ℕ → ℕ → World
start most room = record { guard = new_guard most room; holders = λ p. 0 }

start-IsSafe : (most room : ℕ) → IsSafe most room (start most room)
unfolding flying queue_of Dict.get
start-IsSafe most room = record { most_fits = refl; room_fits = refl; balanced = λ p. ground arith }

-- However requests come, give up and leave, for every provider the guard counts exactly the
-- requests that hold a slot, these are at most `most`, at most `room` wait, and while one waits
-- no slot is free.
pub Reach-IsSafe : (most room : ℕ) {w : World} → Reach (start most room) w → IsSafe most room w
Reach-IsSafe most room here = start-IsSafe most room
Reach-IsSafe most room (next r st) = Step-IsSafe most room st (Reach-IsSafe most room r)
