-- ===== src/Adapters/OpenAi/Starts.antt =====
-- The starts of tool calls in a translated stream.
use vibe_ai_router.Common.{
  ℕ, ◌≡◌, refl, subst, String, Bool, true, false, Option, none, some, List, [], ◌∷◌, ◌++◌, is_some,
  inl, inr, if◌then◌else◌, Bool-cases,
}
use mathlib.Core.List.{append_assoc}
use vibe_ai_router.Gateway.Envelope.{StreamChunk, tool_call_start, finish, stop}
use vibe_ai_router.Adapters.OpenAi.{
  given, ToolFrame, Frame, StreamState, new_state, is_started, resolve_index, arguments_of,
  stop_chunk, text_chunk, is_usage_only, usage_chunk, open_call, take_call, take_calls, handle, run,
}

-- No start is among those before it.
abbrev pub StartsOnce : List ℕ → List StreamChunk → Type 0
StartsOnce started [] = Unit {0}
StartsOnce started (tool_call_start i _ _ ∷ cs) =
    (is_started i started ≡ false) × StartsOnce (i ∷ started) cs
StartsOnce started (_ ∷ cs) = StartsOnce started cs

-- Chunks that go from some starts to others.
record Leads (started : List ℕ) (cs : List StreamChunk) (later : List ℕ) : Type 0 where
  pub leads : (rest : List StreamChunk) → StartsOnce later rest → StartsOnce started (cs ++ rest)

Leads-none : (started : List ℕ) → Leads started [] started
Leads-none started = record { leads = λ rest h. h }

arguments_of-Leads :
    (started : List ℕ) (index : ℕ) (o : Option String)
    → Leads started (arguments_of index o) started
arguments_of-Leads started index none = Leads-none started
arguments_of-Leads started index (some t) = record { leads = λ rest h. h }

text_chunk-Leads : (started : List ℕ) (o : Option String) → Leads started (text_chunk o) started
text_chunk-Leads started none = Leads-none started
text_chunk-Leads started (some t) = record { leads = λ rest h. h }

stop_chunk-Leads : (started : List ℕ) (o : Option String) → Leads started (stop_chunk o) started
stop_chunk-Leads started none = Leads-none started
stop_chunk-Leads started (some t) = record { leads = λ rest h. h }

end-Leads :
    (started : List ℕ) (b : Bool) (cs : List StreamChunk)
    → Leads started cs started
    → Leads started (if b then cs else []) started
end-Leads started true cs h = h
end-Leads started false cs h = Leads-none started

Leads-append :
    {a b c : List ℕ} {xs ys : List StreamChunk} → Leads a xs b → Leads b ys c → Leads a (xs ++ ys) c
Leads-append {xs = xs} {ys = ys} h k = record {
  leads = λ rest r. rw (append_assoc xs ys rest) (h.leads (ys ++ rest) (k.leads rest r));
}

resolve_index-started :
    (o : Option ℕ) (b : Bool) (s : StreamState) → (resolve_index o b s).0.started ≡ s.started
unfolding resolve_index
resolve_index-started (some i) b s = refl
resolve_index-started none true s = refl
resolve_index-started none false s = refl

module _ (number_text : ℕ → String) where
  open_call-Leads :
      (index : ℕ) (id name : Option String) (s : StreamState)
      → Leads s.started
          (open_call number_text index id name s).1
          (open_call number_text index id name s).0.started
  unfolding open_call
  open_call-Leads index id none s = Leads-none s.started
  open_call-Leads index id (some name) s = elim (Bool-cases (is_started index s.started)) [
    | inl known ↦ rw known (Leads-none s.started)
    | inr fresh ↦ rw fresh record { leads = λ rest h. (fresh, h) }
  ]

  take_call-Leads :
      (tc : ToolFrame) (s : StreamState)
      → Leads s.started (take_call number_text tc s).1 (take_call number_text tc s).0.started
  unfolding take_call
  take_call-Leads tc s =
      let r = resolve_index tc.index (is_some tc.name) s in
      let opened = open_call-Leads r.1 tc.id tc.name r.0 in
      let same = resolve_index-started tc.index (is_some tc.name) s in
      Leads-append
        (subst
          (λ z.
            Leads z (open_call number_text r.1 tc.id tc.name r.0).1
              (open_call number_text r.1 tc.id tc.name r.0).0.started)
          same opened)
        (arguments_of-Leads _ r.1 (given tc.arguments))

  take_calls-Leads :
      (tcs : List ToolFrame) (s : StreamState)
      → Leads s.started (take_calls number_text tcs s).1 (take_calls number_text tcs s).0.started
  unfolding take_calls
  take_calls-Leads [] s = Leads-none s.started
  take_calls-Leads (tc ∷ tcs) s = Leads-append (take_call-Leads tc s) (take_calls-Leads tcs _)

  handle-Leads :
      (f : Frame) (s : StreamState)
      → Leads s.started (handle number_text f s).1 (handle number_text f s).0.started
  unfolding handle usage_chunk
  handle-Leads f s = Leads-append (text_chunk-Leads s.started (given f.content)) (
      Leads-append (take_calls-Leads f.tool_calls s) (
        Leads-append (stop_chunk-Leads _ (given f.finish_reason))
          (end-Leads _ (is_usage_only f) (finish stop ∷ []) (record { leads = λ rest h. h }))))

  run-from : (fs : List Frame) (s : StreamState) → StartsOnce s.started (run number_text fs s)
  unfolding run
  run-from [] s = tt
  run-from (f ∷ fs) s = (handle-Leads f s).leads _ (run-from fs (handle number_text f s).0)

  -- Whatever frames a provider sends, with or without indices, names and identifiers, no index is
  -- started twice in the translated stream.
  pub run-StartsOnce : (fs : List Frame) → StartsOnce [] (run number_text fs new_state)
  run-StartsOnce fs = run-from fs new_state
