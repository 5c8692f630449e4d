-- ===== src/Resilience/Shed/Fifo.antt =====
-- The queue of the guard: who comes is put at its end, and a release lets in its head.
use mathlib.Core.List.{append-nil, append_assoc}
use vibe_ai_router.Common.{
  ℕ, zero, suc, ◌+◌, ◌-◌, ◌≤◌, ◌<◌, String, ◌≡◌, refl, sym, ap, ◌∙◌, Option, none, some, List, [],
  ◌∷◌, ◌++◌, arith, str_eq, eq_iff, length, if◌then◌else◌,
}
use vibe_ai_router.Common.Dict
use vibe_ai_router.Common.Int.{pos, ◌+ℤ◌}
use vibe_ai_router.Resilience.Shed.{
  LoadShedGuard, new_guard, Admission, waiting, acquire, flying, queue_of, set_flying, set_queue,
  hand_over, release,
}
use vibe_ai_router.Resilience.Shed.Balance.{
  flying-set_flying, flying-set_queue, queue_of-set_flying, queue_of-set_queue,
  release-eq-hand_over,
}

-- The tickets that so many releases in a row let in.
unfoldable pub releases : ℕ → String → LoadShedGuard → List ℕ
releases zero p g = []
releases (suc n) p g = elim (release p g).1 [
  | none ↦ releases n p (release p g).0
  | some t ↦ t ∷ releases n p (release p g).0
]

abbrev pub take : ℕ → List ℕ → List ℕ
take zero ts = []
take (suc n) [] = []
take (suc n) (t ∷ ts) = t ∷ take n ts

-- A release that finds a waiting request gives the slot on to the first.
hand_over_first :
    (p : String) (k t : ℕ) (ts : List ℕ) (g : LoadShedGuard)
    → k < g.max_concurrent
    → ((hand_over p (t ∷ ts) (set_flying p (pos k) g)).1 ≡ some t)
      × (queue_of p (hand_over p (t ∷ ts) (set_flying p (pos k) g)).0 ≡ ts)
      × (flying p (hand_over p (t ∷ ts) (set_flying p (pos k) g)).0 ≡ pos (suc k))
      × ((hand_over p (t ∷ ts) (set_flying p (pos k) g)).0.max_concurrent ≡ g.max_concurrent)
unfolding hand_over ◌+ℤ◌
hand_over_first p k t ts g fits =
    let g' = set_flying p (pos k) g in
    ground (
      arith,
      flying-set_flying p p (pos k) g,
      flying-set_queue p p ts g',
      flying-set_flying p p (flying p g' +ℤ pos 1) (set_queue p ts g'),
      queue_of-set_flying p p (flying p g' +ℤ pos 1) (set_queue p ts g'),
      queue_of-set_queue p p ts g',
      eq_iff p p,
    )

release_first :
    (p : String) (k t : ℕ) (ts : List ℕ) (g : LoadShedGuard)
    → flying p g ≡ pos (suc k)
    → k < g.max_concurrent
    → queue_of p g ≡ t ∷ ts
    → ((release p g).1 ≡ some t)
      × (queue_of p (release p g).0 ≡ ts)
      × (flying p (release p g).0 ≡ pos (suc k))
      × ((release p g).0.max_concurrent ≡ g.max_concurrent)
release_first p k t ts g f fits q =
    let less : suc k - 1 ≡ k = omega arith in
    rw (release-eq-hand_over p (suc k) g (omega arith) f, q, less) (hand_over_first p k t ts g fits)

releases_from :
    (n : ℕ) (p : String) (k : ℕ) (ts : List ℕ) (g : LoadShedGuard)
    → flying p g ≡ pos (suc k)
    → k < g.max_concurrent
    → queue_of p g ≡ ts
    → n ≤ length ts
    → releases n p g ≡ take n ts
unfolding releases
releases_from zero p k ts g f fits q le = refl
releases_from (suc n) p k [] g f fits q le = absurd (omega arith)
releases_from (suc n) p k (t ∷ ts) g f fits q le =
    let (let_in, left, out, same) = release_first p k t ts g f fits q in
    rw (let_in, releases)
      (ap (λ l. t ∷ l)
        (releases_from n p k ts (release p g).0 out (rw same fits) left (omega arith)))

-- With no more slots out than there may be, each of so many releases in a row lets in one of the
-- queue, from its head.
releases-queue :
    (n : ℕ) (p : String) (k : ℕ) (g : LoadShedGuard)
    → flying p g ≡ pos (suc k)
    → k < g.max_concurrent
    → n ≤ length (queue_of p g)
    → releases n p g ≡ take n (queue_of p g)
releases-queue n p k g f fits le = releases_from n p k (queue_of p g) g f fits refl le

-- What happens at the guard, at any provider.
pub data Call : Type 0 where
  arrives : String → ℕ → Call
  leaves : String → Call

abbrev pub step : Call → LoadShedGuard → LoadShedGuard
step (arrives q ticket) g = (acquire q ticket g).0
step (leaves q) g = (release q g).0

abbrev pub run : List Call → LoadShedGuard → LoadShedGuard
run [] g = g
run (c ∷ cs) g = run cs (step c g)

abbrev pub if_waiting : Admission → ℕ → List ℕ
if_waiting waiting ticket = ticket ∷ []
if_waiting _ ticket = []

abbrev pub if_some : Option ℕ → List ℕ
if_some none = []
if_some (some ticket) = ticket ∷ []

abbrev pub waits : String → Call → LoadShedGuard → List ℕ
waits p (arrives q ticket) g = if str_eq q p then if_waiting (acquire q ticket g).1 ticket else []
waits p (leaves q) g = []

abbrev pub enters : String → Call → LoadShedGuard → List ℕ
enters p (arrives q ticket) g = []
enters p (leaves q) g = if str_eq q p then if_some (release q g).1 else []

-- The tickets that were told to wait for a provider, in the order in which they came.
abbrev pub waited : String → List Call → LoadShedGuard → List ℕ
waited p [] g = []
waited p (c ∷ cs) g = waits p c g ++ waited p cs (step c g)

-- The tickets that releases let in to a provider, in this order.
abbrev pub let_in : String → List Call → LoadShedGuard → List ℕ
let_in p [] g = []
let_in p (c ∷ cs) g = enters p c g ++ let_in p cs (step c g)

take-append : (n : ℕ) (xs ys : List ℕ) → xs ++ take n ys ≡ take (length xs + n) (xs ++ ys)
take-append n [] ys = ap (λ (m : ℕ). take m ys) (omega arith)
take-append n (x ∷ xs) ys =
    let more : suc (length xs) + n ≡ suc (length xs + n) = omega arith in
    rw more (ap (λ l. x ∷ l) (take-append n xs ys))

arrives-keeps :
    (p q : String) (ticket : ℕ) (g : LoadShedGuard)
    → queue_of p (acquire q ticket g).0 ≡ queue_of p g ++ waits p (arrives q ticket) g
unfolding acquire
arrives-keeps p q ticket g = ground (
  arith,
  append-nil (queue_of p g),
  queue_of-set_flying q p (flying q g +ℤ pos 1) g,
  queue_of-set_queue q p (queue_of q g ++ ticket ∷ []) g,
  eq_iff q p,
)

hand_over-keeps :
    (p q : String) (ts : List ℕ) (g : LoadShedGuard)
    → queue_of q g ≡ ts
    → (if str_eq q p then if_some (hand_over q ts g).1 else []) ++ queue_of p (hand_over q ts g).0
      ≡ queue_of p g
unfolding hand_over
hand_over-keeps p q [] g e = ground arith
hand_over-keeps p q (t ∷ ts) g e = ground (
  arith,
  queue_of-set_flying q p (flying q g +ℤ pos 1) (set_queue q ts g),
  queue_of-set_queue q p ts g,
  eq_iff q p,
)

-- A call lets the head of the queue in, or appends to the queue.
step-keeps :
    (p : String) (c : Call) (g : LoadShedGuard)
    → enters p c g ++ queue_of p (step c g) ≡ queue_of p g ++ waits p c g
step-keeps p (arrives q ticket) g = arrives-keeps p q ticket g
step-keeps p (leaves q) g =
    unfold release in
    hand_over-keeps p q (queue_of q g) _ (queue_of-set_flying q q _ g)
    ∙ (queue_of-set_flying q p _ g ∙ sym (append-nil (queue_of p g)))

run-keeps :
    (p : String) (cs : List Call) (g : LoadShedGuard)
    → let_in p cs g ++ queue_of p (run cs g) ≡ queue_of p g ++ waited p cs g
run-keeps p [] g = sym (append-nil (queue_of p g))
run-keeps p (c ∷ cs) g =
    let entered = enters p c g in
    let then_in = let_in p cs (step c g) in
    let then_waited = waited p cs (step c g) in
    append_assoc entered then_in (queue_of p (run cs (step c g)))
    ∙ (ap (λ l. entered ++ l) (run-keeps p cs (step c g))
        ∙ (sym (append_assoc entered (queue_of p (step c g)) then_waited)
            ∙ (ap (λ l. l ++ then_waited) (step-keeps p c g)
                ∙ append_assoc (queue_of p g) (waits p c g) then_waited)))

hand_over-max :
    (q : String) (ts : List ℕ) (g : LoadShedGuard)
    → (hand_over q ts g).0.max_concurrent ≡ g.max_concurrent
unfolding hand_over
hand_over-max q [] g = refl
hand_over-max q (t ∷ ts) g = ground arith

step-max : (c : Call) (g : LoadShedGuard) → (step c g).max_concurrent ≡ g.max_concurrent
step-max (arrives q ticket) g = unfold acquire in ground arith
step-max (leaves q) g = unfold release in hand_over-max q (queue_of q g) _

run-max : (cs : List Call) (g : LoadShedGuard) → (run cs g).max_concurrent ≡ g.max_concurrent
run-max [] g = refl
run-max (c ∷ cs) g = run-max cs (step c g) ∙ step-max c g

-- From a new guard, after any arrivals and releases at any providers in which nobody gives up
-- waiting: if a provider has a slot out and no more than there may be, then each of so many more
-- releases in a row, as many at most as there are waiting, lets one in, and all that were let in
-- from the queue since the start are the first of those that were told to wait, in the order in
-- which they came.
pub releases-eq-take :
    (n : ℕ) (p : String) (k most room : ℕ) (cs : List Call)
    → let start = new_guard most room in
      flying p (run cs start) ≡ pos (suc k)
      → k < most
      → n ≤ length (queue_of p (run cs start))
      → let_in p cs start ++ releases n p (run cs start)
        ≡ take (length (let_in p cs start) + n) (waited p cs start)
unfolding queue_of Dict.get
releases-eq-take n p k most room cs f fits le =
    let start = new_guard most room in
    let entered = let_in p cs start in
    ap (λ l. entered ++ l) (releases-queue n p k (run cs start) f (rw (run-max cs start) fits) le)
    ∙ (take-append n entered (queue_of p (run cs start))
        ∙ ap (λ l. take (length entered + n) l) (run-keeps p cs start))
