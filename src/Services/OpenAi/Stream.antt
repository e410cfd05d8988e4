-- ===== src/Services/OpenAi/Stream.antt =====
-- The answers of services/openai/llm/llm.go: `runStreamingCompletion`, which gathers the calls of
-- tools from their fragments, `runNonStreamingCompletion` and `convertToolCall`. What the client
-- answers, whether a context is done at each test of it, and the order of a `range` over a map are
-- inputs.
use interact_kit_sdk.Text.{codes, text_eq, Text, is_empty}
use interact_kit_sdk.Prelude.{
  ℕ, suc, Bool, true, false, Option, none, some, List, [], ◌∷◌, ◌++◌, ◌==◌, if◌then◌else◌,
}

-- a call of a tool, or a fragment of one, of the OpenAI client
pub record ToolCall : Type 0 where
  pub index : Option ℕ
  pub id : Text
  pub kind : Text
  pub name : Text
  pub arguments : Text

-- a choice of an answer: a delta of a stream, or a message
pub record Choice : Type 0 where
  pub content : Text
  pub tool_calls : List ToolCall
  pub finish_reason : Text

-- `toolCallBuilder`
abbrev pub Builder : Type 0
Builder = List (ℕ × ToolCall)

unfoldable pub call_at : ℕ → Builder → Option ToolCall
call_at i [] = none
call_at i ((j, c) ∷ b) = let later = call_at i b in if j == i then some c else later

unfoldable pub set_call : ℕ → ToolCall → Builder → Builder
set_call i c [] = (i, c) ∷ []
set_call i c ((j, d) ∷ b) =
    let later = set_call i c b in if j == i then (i, c) ∷ b else (j, d) ∷ later

-- the call of an index before its fragment, which begins one where there is none
abbrev pub begun : ToolCall → Option ToolCall → ToolCall
begun d none = record d { name = []; arguments = [] }
begun d (some c) = c

-- A fragment replaces the name and the identity where it has them, and extends the arguments.
unfoldable pub extend : ToolCall → ToolCall → ToolCall
extend d c = record c {
  name = if is_empty d.name then c.name else d.name;
  arguments = c.arguments ++ d.arguments;
  id = if is_empty d.id then c.id else d.id;
}

unfoldable pub add_at : Option ℕ → ToolCall → Builder → Builder
unfolding call_at set_call extend
add_at none d b = b
add_at (some i) d b = set_call i (extend d (begun d (call_at i b))) b

-- the loop over the fragments of an answer
unfoldable pub add_deltas : List ToolCall → Builder → Builder
unfolding add_at
add_deltas [] b = b
add_deltas (d ∷ ds) b = add_deltas ds (add_at d.index d b)

-- The parameters of an invocation: the nil map, what the JSON decodes to, or the arguments
-- themselves where it does not decode.
pub data Arguments (A : Type 0) : Type 0 where
  no_arguments : Arguments A
  decoded : A → Arguments A
  raw_arguments : Text → Arguments A

pub record Invocation (A : Type 0) : Type 0 where
  pub tool_id : Text
  pub parameters : Arguments A

-- what goes to the handler: a text on `outChan`, or a call on `toolInvocationChan`
pub data StreamOutput (A : Type 0) : Type 0 where
  content_sent : Text → StreamOutput A
  call_sent : Invocation A → StreamOutput A

-- A round of the loop of a stream: whether its first test finds the context done, what `Recv`
-- brings (`none` is an error, as the end of a stream is), whether the context is done in place of
-- the send of the content, and of that of the k-th call.
pub record Round : Type 0 where
  pub context_done : Bool
  pub received : Option (List Choice)
  pub content_stopped : Bool
  pub call_stopped : ℕ → Bool

module _ {A : Type 0} (decode : Text → Option A) where
  -- `json.Unmarshal` into the map of parameters, with its error branch
  abbrev pub decode_arguments : Text → Option A → Arguments A
  decode_arguments t none = raw_arguments t
  decode_arguments t (some a) = decoded a

  -- `convertToolCall`
  unfoldable pub convert_tool_call : ToolCall → Invocation A
  convert_tool_call c = record {
    tool_id = c.name;
    parameters =
        if is_empty c.arguments
        then no_arguments
        else decode_arguments c.arguments (decode c.arguments);
  }

  -- The loop that sends the calls that have a name, and whether it returns early.
  unfoldable pub send_calls : (ℕ → Bool) → ℕ → Builder → List (StreamOutput A) × Bool
  unfolding convert_tool_call
  send_calls stopped k [] = ([], false)
  send_calls stopped k ((i, c) ∷ b) =
      let (later, early) = send_calls stopped (suc k) b in
      if is_empty c.name
      then (later, early)
      else if stopped k
      then ([], true)
      else (call_sent (convert_tool_call c) ∷ later, early)

  -- the loop that sends all the calls of a message
  unfoldable pub send_all_calls : (ℕ → Bool) → ℕ → List ToolCall → List (StreamOutput A)
  unfolding convert_tool_call
  send_all_calls stopped k [] = []
  send_all_calls stopped k (c ∷ cs) =
      let later = send_all_calls stopped (suc k) cs in
      if stopped k then [] else call_sent (convert_tool_call c) ∷ later

  -- `runNonStreamingCompletion` after its request, on the choices of the answer
  unfoldable pub run_whole : Bool → (ℕ → Bool) → List Choice → List (StreamOutput A)
  unfolding send_all_calls
  run_whole content_stopped stopped [] = []
  run_whole content_stopped stopped (c ∷ cs) =
      let calls = send_all_calls stopped 0 c.tool_calls in
      if is_empty c.content
      then calls
      else if content_stopped
      then []
      else content_sent c.content ∷ calls

  module _ (order : Builder → Builder) where
    -- The end of a choice: at the finish reason `tool_calls` the calls are sent and forgotten.
    unfoldable pub finish_choice :
        (ℕ → Bool) → Text → Builder → List (StreamOutput A) × Option Builder
    unfolding send_calls
    finish_choice stopped reason b =
        let (sent, early) = send_calls stopped 0 (order b) in
        if text_eq reason (codes "tool_calls")
        then (sent, if early then none else some [])
        else ([], some b)

    -- A round on the choices of an answer, of which the first counts: what is sent, and the builder
    -- after it, or nothing where the function returns.
    unfoldable pub take_choice :
        Round → List Choice → Builder → List (StreamOutput A) × Option Builder
    unfolding finish_choice add_deltas
    take_choice r [] b = ([], some b)
    take_choice r (c ∷ cs) b =
        let (sent, next) =
          finish_choice r.call_stopped c.finish_reason (add_deltas c.tool_calls b) in
        if is_empty c.content
        then (sent, next)
        else if r.content_stopped
        then ([], none)
        else (content_sent c.content ∷ sent, next)

    unfoldable pub receive :
        Round → Option (List Choice) → Builder → List (StreamOutput A) × Option Builder
    unfolding take_choice
    receive r none b = ([], none)
    receive r (some choices) b = take_choice r choices b

    -- The loop of `runStreamingCompletion` along some rounds.
    unfoldable pub run_stream : List Round → Option Builder → List (StreamOutput A) × Option Builder
    unfolding receive
    run_stream rounds none = ([], none)
    run_stream [] (some b) = ([], some b)
    run_stream (r ∷ rs) (some b) =
        let (sent, next) = receive r r.received b in
        let (more, last) = run_stream rs next in
        if r.context_done then ([], none) else (sent ++ more, last)
