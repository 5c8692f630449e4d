-- ===== src/Adapters/Anthropic/Indices.antt =====
-- The indices of the tool calls in a translated stream.
use vibe_ai_router.Common.{
  ℕ, suc, ◌<◌, ◌≡◌, refl, String, Option, some, List, [], ◌∷◌, ◌++◌, arith, inl, inr, subst,
  Bool-cases, Option-cases,
}
use vibe_ai_router.Gateway.Errors.{Result, ok, err, Result-cases}
use vibe_ai_router.Gateway.Envelope.{StreamChunk, tool_call_start, tool_call_delta}
use vibe_ai_router.Adapters.Anthropic.{
  StreamEvent, message_start, block_start, block_delta, block_stop, message_delta, message_stop,
  ping, stream_error, StartedBlock, started_text, started_tool, Delta, text_piece, json_piece,
  signature, StreamState, new_state, is_schema_tool, is_block, tool_index, start_block, take_delta,
  handle, run,
}

-- After so many calls were started: calls start in the order 0, 1, 2, ..., and arguments go to calls
-- that were started.
abbrev pub IsOrderly : ℕ → List StreamChunk → Type 0
IsOrderly n [] = Unit {0}
IsOrderly n (tool_call_start i _ _ ∷ cs) = (i ≡ n) × IsOrderly (suc n) cs
IsOrderly n (tool_call_delta i _ ∷ cs) = (i < n) × IsOrderly n cs
IsOrderly n (_ ∷ cs) = IsOrderly n cs

abbrev Below : ℕ → List (ℕ × ℕ) → Type 0
Below n [] = Unit {0}
Below n ((b, i) ∷ rest) = (i < n) × Below n rest

Below-suc : (n : ℕ) (m : List (ℕ × ℕ)) → Below n m → Below (suc n) m
Below-suc n [] h = tt
Below-suc n ((b, i) ∷ rest) h = (omega arith, Below-suc n rest h.1)

tool_index-lt : (n block i : ℕ) (m : List (ℕ × ℕ)) → Below n m → tool_index block m ≡ some i → i < n
unfolding tool_index
tool_index-lt n block i [] h e = absurd (cc)
tool_index-lt n block i ((b, j) ∷ rest) h e = ground (arith, tool_index-lt n block i rest h.1)

-- What a step leaves and gives.
abbrev Continues : StreamState → StreamState × List StreamChunk → Type 0
Continues s r =
    Below r.0.next_tool_index r.0.tool_index_by_block
    × ((rest : List StreamChunk)
        → IsOrderly r.0.next_tool_index rest
        → IsOrderly s.next_tool_index (r.1 ++ rest))

start_block-Continues :
    (block : ℕ) (started : StartedBlock) (s : StreamState)
    → Below s.next_tool_index s.tool_index_by_block
    → Continues s (start_block block started s)
unfolding start_block
start_block-Continues block (started_tool id name) s h =
    elim (Bool-cases (is_schema_tool s.schema_tool name)) [
      | inl e ↦ rw e (h, λ rest r. r)
      | inr e ↦ rw e ((omega arith, Below-suc _ _ h), λ rest r. (refl, r))
    ]
start_block-Continues block started_text s h = (h, λ rest r. r)
start_block-Continues block _ s h = (h, λ rest r. r)

take_delta-Continues :
    (block : ℕ) (delta : Delta) (s : StreamState)
    → Below s.next_tool_index s.tool_index_by_block
    → Continues s (s, take_delta block delta s)
unfolding take_delta
take_delta-Continues block (text_piece t) s h = (h, λ rest r. r)
take_delta-Continues block (json_piece t) s h = elim (Bool-cases (is_block s.schema_block block)) [
  | inl e ↦ rw e (h, λ rest r. r)
  | inr e ↦ elim (Option-cases (tool_index block s.tool_index_by_block)) [
    | inl missing ↦ rw (e, missing) (h, λ rest r. r)
    | inr (i, found) ↦ rw (e, found) (h, λ rest r. (tool_index-lt _ block i _ h found, r))
  ]
]
take_delta-Continues block signature s h = (h, λ rest r. r)
take_delta-Continues block _ s h = (h, λ rest r. r)

abbrev ContinuesIf : StreamState → Result (StreamState × List StreamChunk) → Type 0
ContinuesIf s (ok r) = Continues s r
ContinuesIf s (err e) = Unit {0}

handle-Continues :
    (e : StreamEvent) (s : StreamState)
    → Below s.next_tool_index s.tool_index_by_block
    → ContinuesIf s (handle e s)
unfolding handle
handle-Continues (message_start raw) s h = (h, λ rest r. r)
handle-Continues (block_start block started) s h = start_block-Continues block started s h
handle-Continues (block_delta block delta) s h = take_delta-Continues block delta s h
handle-Continues (message_delta reason output) s h = (h, λ rest r. r)
handle-Continues message_stop s h = (h, λ rest r. r)
handle-Continues (stream_error type) s h = tt
handle-Continues ping s h = (h, λ rest r. r)
handle-Continues (block_stop block) s h = (h, λ rest r. r)

run-from :
    (es : List StreamEvent) (s : StreamState)
    → Below s.next_tool_index s.tool_index_by_block
    → IsOrderly s.next_tool_index (run es s).0
unfolding run
run-from [] s h = tt
run-from (e ∷ es) s h = elim (Result-cases (handle e s)) [
  | inl ((s', cs), good) ↦
      let c : Continues s (s', cs) = subst (ContinuesIf s) good (handle-Continues e s h) in
      rw (good, run) (c.1 (run es s').0 (run-from es s' c.0))
  | inr (w, bad) ↦ rw (bad, run) tt
]

-- Whatever a provider's events are, the translated stream starts its tool calls in the order 0, 1, 2,
-- ..., and gives arguments only to calls that it has started.
pub run-IsOrderly :
    (es : List StreamEvent) (schema_tool : Option String)
    → IsOrderly 0 (run es (new_state schema_tool)).0
run-IsOrderly es schema_tool = run-from es (new_state schema_tool) tt
