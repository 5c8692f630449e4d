-- ===== src/Adapters/Anthropic/Agreement.antt =====
-- An answer of the Messages API as a stream and as a whole, up to the spelling of JSON.
use Prim.Native.String.{[] as empty, ◌++◌ as append}
use vibe_ai_router.Common.{
  ℕ, suc, ◌<◌, ◌≡◌, refl, sym, ap, ◌∙◌, String, true, false, Option, none, some, List, [], ◌∷◌, map,
  arith, inl, inr, Bool-cases, Option-cases, if◌then◌else◌,
}
use vibe_ai_router.Common.Texts.{append_empty, append_assoc, empty-append}
use vibe_ai_router.Gateway.Envelope.{StreamChunk, text_delta}
use vibe_ai_router.Gateway.Json.{Json}
use vibe_ai_router.Adapters.Anthropic.{
  RawUsage, to_usage, Block, text, thinking, tool_use, redacted_thinking, is_schema_tool,
  print_input, Built, add_block, add_blocks, translate_response, StartedBlock, started_text,
  started_thinking, started_redacted, started_tool, Delta, text_piece, json_piece, thinking_piece,
  StreamEvent, message_start, block_start, block_delta, block_stop, StreamState, new_state,
  is_block, tool_index, start_block, take_delta, handle, run,
}

-- What a consumer reads as the content.
abbrev pub content_of : List StreamChunk → String
content_of [] = empty
content_of (text_delta t ∷ cs) = append t (content_of cs)
content_of (_ ∷ cs) = content_of cs

-- A block whose text comes in pieces. A tool's is what the model wrote for the input, beside the
-- value that the whole answer has as the input.
pub data StreamedBlock : Type 0 where
  streamed_text streamed_thinking : List String → StreamedBlock
  streamed_tool : String → String → Option Json → List String → StreamedBlock
  streamed_redacted : StreamedBlock

abbrev pub join : List String → String
join [] = empty
join (p ∷ ps) = append p (join ps)

abbrev pub whole_of : StreamedBlock → Block
whole_of (streamed_text ps) = text (join ps)
whole_of (streamed_thinking ps) = thinking (join ps)
whole_of (streamed_tool id name input ps) = tool_use id name input
whole_of streamed_redacted = redacted_thinking

abbrev started_as : StreamedBlock → StartedBlock
started_as (streamed_text ps) = started_text
started_as (streamed_thinking ps) = started_thinking
started_as (streamed_tool id name input ps) = started_tool id name
started_as streamed_redacted = started_redacted

abbrev pieces : ℕ → (String → Delta) → List String → List StreamEvent → List StreamEvent
pieces i piece [] es = block_stop i ∷ es
pieces i piece (p ∷ ps) es = block_delta i (piece p) ∷ pieces i piece ps es

abbrev deltas : ℕ → StreamedBlock → List StreamEvent → List StreamEvent
deltas i (streamed_text ps) es = pieces i text_piece ps es
deltas i (streamed_thinking ps) es = pieces i thinking_piece ps es
deltas i (streamed_tool id name input ps) es = pieces i json_piece ps es
deltas i streamed_redacted es = block_stop i ∷ es

-- The events of blocks, numbered from a first one.
abbrev pub events : ℕ → List StreamedBlock → List StreamEvent
events i [] = []
events i (b ∷ bs) = block_start i (started_as b) ∷ deltas i b (events (suc i) bs)

abbrev read : List StreamEvent → StreamState → String
read es s = content_of (run es s).0

read-text :
    (i : ℕ) (ps : List String) (es : List StreamEvent) (s : StreamState)
    → read (pieces i text_piece ps es) s ≡ append (join ps) (read es s)
unfolding run handle take_delta
read-text i [] es s = sym (empty-append (read es s))
read-text i (p ∷ ps) es s =
    ap (append p) (read-text i ps es s) ∙ sym (append_assoc p (join ps) (read es s))

read-thinking :
    (i : ℕ) (ps : List String) (es : List StreamEvent) (s : StreamState)
    → read (pieces i thinking_piece ps es) s ≡ read es s
unfolding run handle take_delta
read-thinking i [] es s = refl
read-thinking i (p ∷ ps) es s = read-thinking i ps es s

read-schema :
    (i : ℕ) (ps : List String) (es : List StreamEvent) (s : StreamState)
    → is_block s.schema_block i ≡ true
    → read (pieces i json_piece ps es) s ≡ append (join ps) (read es s)
unfolding run handle take_delta
read-schema i [] es s here = sym (empty-append (read es s))
read-schema i (p ∷ ps) es s here =
    rw here
      (ap (append p) (read-schema i ps es s here) ∙ sym (append_assoc p (join ps) (read es s)))

read-tool :
    (i : ℕ) (ps : List String) (es : List StreamEvent) (s : StreamState)
    → is_block s.schema_block i ≡ false
    → read (pieces i json_piece ps es) s ≡ read es s
unfolding run handle take_delta
read-tool i [] es s away = refl
read-tool i (p ∷ ps) es s away = elim (Option-cases (tool_index i s.tool_index_by_block)) [
  | inl missing ↦ rw (away, missing) (read-tool i ps es s away)
  | inr (k, found) ↦ rw (away, found) (read-tool i ps es s away)
]

-- The schema tool's block, if it came, came before.
abbrev Past : Option ℕ → ℕ → Type 0
Past none i = Unit {0}
Past (some b) i = b < i

Past-suc : (o : Option ℕ) (i : ℕ) → Past o i → Past o (suc i)
Past-suc none i h = tt
Past-suc (some b) i h = omega arith

Past-away : (o : Option ℕ) (i : ℕ) → Past o i → is_block o i ≡ false
Past-away none i h = refl
Past-away (some b) i h = ground arith

-- The texts, and the schema tool's inputs as `spell` spells them, from their value and what the model
-- wrote.
abbrev pub content_by :
    (Option Json → List String → String) → Option String → List StreamedBlock → String
content_by spell tool [] = empty
content_by spell tool (streamed_text ps ∷ bs) = append (join ps) (content_by spell tool bs)
content_by spell tool (streamed_tool id name input ps ∷ bs) =
    if is_schema_tool tool name
    then append (spell input ps) (content_by spell tool bs)
    else content_by spell tool bs
content_by spell tool (streamed_thinking ps ∷ bs) = content_by spell tool bs
content_by spell tool (streamed_redacted ∷ bs) = content_by spell tool bs

-- As the model wrote it.
abbrev pub as_written : Option Json → List String → String
as_written input ps = join ps

-- As the platform prints the value.
abbrev pub as_printed : (Json → String) → Option Json → List String → String
as_printed stringify input ps = print_input stringify input

-- The stream's content from a block on.
events-read :
    (i : ℕ) (bs : List StreamedBlock) (s : StreamState)
    → Past s.schema_block i
    → read (events i bs) s ≡ content_by as_written s.schema_tool bs
unfolding run handle start_block
events-read i [] s past = refl
events-read i (streamed_text ps ∷ bs) s past =
    read-text i ps (events (suc i) bs) s
    ∙ ap (append (join ps)) (events-read (suc i) bs s (Past-suc _ i past))
events-read i (streamed_thinking ps ∷ bs) s past =
    read-thinking i ps (events (suc i) bs) s ∙ events-read (suc i) bs s (Past-suc _ i past)
events-read i (streamed_redacted ∷ bs) s past = events-read (suc i) bs s (Past-suc _ i past)
events-read i (streamed_tool id name input ps ∷ bs) s past =
    elim (Bool-cases (is_schema_tool s.schema_tool name)) [
      | inl e ↦
          let s' : StreamState = record s { schema_block = some i } in
          rw e (
            read-schema i ps (events (suc i) bs) s' (ground arith)
            ∙ ap (append (join ps)) (events-read (suc i) bs s' (omega arith)))
      | inr e ↦
          let s' : StreamState = record s {
            tool_index_by_block = (i, s.next_tool_index) ∷ s.tool_index_by_block;
            next_tool_index = suc s.next_tool_index;
          } in
          rw e (
            read-tool i ps (events (suc i) bs) s' (Past-away _ i past)
            ∙ events-read (suc i) bs s' (Past-suc _ i past))
    ]

-- What the loop over the blocks of the whole answer adds to the content.
add_blocks-content :
    (stringify : Json → String) (tool : Option String) (bs : List StreamedBlock) (b : Built)
    → (add_blocks stringify tool (map whole_of bs) b).content
      ≡ append b.content (content_by (as_printed stringify) tool bs)
unfolding add_blocks add_block
add_blocks-content stringify tool [] b = sym (append_empty b.content)
add_blocks-content stringify tool (streamed_text ps ∷ bs) b =
    add_blocks-content stringify tool bs (record b { content = append b.content (join ps) })
    ∙ append_assoc b.content (join ps) (content_by (as_printed stringify) tool bs)
add_blocks-content stringify tool (streamed_thinking ps ∷ bs) b =
    add_blocks-content stringify tool bs (record b { thoughts = append b.thoughts (join ps) })
add_blocks-content stringify tool (streamed_redacted ∷ bs) b =
    add_blocks-content stringify tool bs b
add_blocks-content stringify tool (streamed_tool id name input ps ∷ bs) b =
    add_blocks-content stringify tool bs (add_block stringify tool (tool_use id name input) b)
    ∙ elim (Bool-cases (is_schema_tool tool name)) [
      | inl e ↦ rw e (
          append_assoc b.content (print_input stringify input)
            (content_by (as_printed stringify) tool bs))
      | inr e ↦ rw e refl
    ]

-- The content that a consumer reads from the translated stream of an answer and the content of the
-- translation of the whole answer are the same texts and inputs of the schema tool, in the same
-- order, however the blocks are cut into pieces, without other tools and thinking. They differ in
-- how such an input is spelled: the stream has what the model wrote, and the whole answer has what
-- `JSON.stringify` prints for its value (`undefined` for a missing one).
pub run-translate_response :
    (stringify : Json → String) (usage : RawUsage) (bs : List StreamedBlock)
    (reason schema_tool : Option String)
    → (content_of (run (message_start usage ∷ events 0 bs) (new_state schema_tool)).0
        ≡ content_by as_written schema_tool bs)
      × ((translate_response stringify (map whole_of bs) reason schema_tool).content
          ≡ content_by (as_printed stringify) schema_tool bs)
unfolding run handle translate_response
run-translate_response stringify usage bs reason schema_tool =
    let begun : StreamState = record (new_state schema_tool) { usage = to_usage usage } in
    (
      events-read 0 bs begun tt,
      add_blocks-content stringify schema_tool bs
            (record { content = ""; thoughts = ""; tool_calls = [] })
          ∙ empty-append (content_by (as_printed stringify) schema_tool bs),
    )
