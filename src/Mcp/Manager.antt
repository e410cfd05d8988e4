-- ===== src/Mcp/Manager.antt =====
-- The connections of handlers/context/mcp_manager.go, with the configuration of core/mcp.go. The
-- client is third-party code: what it answers to `Connect`, `ListTools` and `CallTool` is an input,
-- and a session is a number. The tools of a connection are listed in the order in which they were
-- found, as a `range` over a Go map may take them.
use interact_kit_sdk.Prelude.{
  ℕ, String, Bool, Option, none, some, List, [], ◌∷◌, ◌++◌, map, if◌then◌else◌,
}
use interact_kit_sdk.Prelude.Dict.{insert, lookup}
use interact_kit_sdk.Text.{Text, is_empty}
use interact_kit_sdk.Events.{LlmTool, Params}
use interact_kit_sdk.Mcp.{Content, Value, convert_mcp_tool, extract_mcp_result, make_tool_id}

-- `MCPCommandConfig`
pub record CommandConfig : Type 0 where
  pub path : Text
  pub args : List Text
  pub env : List Text

-- `MCPURLConfig`
pub record UrlConfig : Type 0 where
  pub url : Text
  pub headers : List (String × Text)

-- `MCPServerConfig`
pub record ServerConfig : Type 0 where
  pub server_name : String
  pub tool_prefix : String
  pub command : Option CommandConfig
  pub sse : Option UrlConfig
  pub streamable : Option UrlConfig

-- The transports of the client. A command with no environment of its own inherits that of the
-- process.
pub data Transport : Type 0 where
  command_transport : Text → List Text → Option (List Text) → Transport
  sse_transport streamable_transport : Text → Transport

-- The environment of a command, where that of the process is `environ`.
abbrev pub command_env : List Text → List Text → Option (List Text)
command_env environ env = if is_empty env then none else some (environ ++ env)

abbrev pub streamable_or_none : Option UrlConfig → Option Transport
streamable_or_none none = none
streamable_or_none (some u) = some (streamable_transport u.url)

abbrev pub sse_or_later : Option UrlConfig → Option Transport → Option Transport
sse_or_later none later = later
sse_or_later (some u) later = some (sse_transport u.url)

abbrev pub command_or_later : List Text → Option CommandConfig → Option Transport → Option Transport
command_or_later environ none later = later
command_or_later environ (some c) later =
    some (command_transport c.path c.args (command_env environ c.env))

-- `buildTransport`, where `none` is its error
unfoldable pub build_transport : List Text → ServerConfig → Option Transport
build_transport environ cfg =
    command_or_later environ cfg.command (sse_or_later cfg.sse (streamable_or_none cfg.streamable))

-- what the code reads of `mcp.Tool`
pub record McpTool : Type 0 where
  pub tool_name : String
  pub tool_description : Text
  pub input_schema : Value

-- `mcpConnection`
pub record Connection : Type 0 where
  pub server : String
  pub prefix : String
  pub session : ℕ
  pub tools : List (String × McpTool)

-- The answers of a server to `Connect` and then `ListTools`: no session, one whose tools cannot be
-- listed, or one with its tools.
pub data Answer : Type 0 where
  unreachable : Answer
  unlisted : ℕ → Answer
  listed : ℕ → List McpTool → Answer

unfoldable pub discover : String → List McpTool → List (String × McpTool) → List (String × McpTool)
unfolding insert make_tool_id
discover prefix [] found = found
discover prefix (t ∷ ts) found =
    discover prefix ts (insert (make_tool_id prefix t.tool_name) t found)

-- The rest of `connectOne`: the connection, where there is one, and the session that is closed.
unfoldable pub connect_with : ServerConfig → Option Transport → Answer → Option Connection × List ℕ
unfolding discover
connect_with cfg none answer = (none, [])
connect_with cfg (some t) unreachable = (none, [])
connect_with cfg (some t) (unlisted session) = (none, session ∷ [])
connect_with cfg (some t) (listed session ts) = (
  some (record {
    server = cfg.server_name;
    prefix = cfg.tool_prefix;
    session = session;
    tools = discover cfg.tool_prefix ts [];
  }),
  [],
)

-- `connectOne`
unfoldable pub connect_one : List Text → ServerConfig → Answer → Option Connection × List ℕ
unfolding connect_with build_transport
connect_one environ cfg answer = connect_with cfg (build_transport environ cfg) answer

-- a connection at the end of those of the manager
abbrev pub with_connection : Option Connection → List Connection → List Connection
with_connection none conns = conns
with_connection (some c) conns = conns ++ c ∷ []

-- `Connect` on the connections of the manager, with the answer of each server: the connections
-- after it, and the sessions that it closed. A server that fails is skipped.
unfoldable pub connect :
    List Text → List (ServerConfig × Answer) → List Connection → List Connection × List ℕ
unfolding connect_one
connect environ [] conns = (conns, [])
connect environ ((cfg, answer) ∷ rest) conns =
    let (made, closed) = connect_one environ cfg answer in
    let (all, later) = connect environ rest (with_connection made conns) in (all, closed ++ later)

unfoldable pub convert_all : List (String × McpTool) → List LlmTool
unfolding convert_mcp_tool
convert_all [] = []
convert_all ((id, t) ∷ ts) = convert_mcp_tool id t.tool_description t.input_schema ∷ convert_all ts

-- `Tools`
unfoldable pub list_tools : List Connection → List LlmTool
unfolding convert_all
list_tools [] = []
list_tools (c ∷ cs) = convert_all c.tools ++ list_tools cs

-- What `CallTool` returns: a result, the error of a call with the names of its server and its tool,
-- or that nobody owns the tool.
pub data CallResult : Type 0 where
  result_of : Text → CallResult
  call_failed : String → String → Text → CallResult
  not_owned : String → CallResult

-- the answer of a session to a call of a tool by its own name
pub data Called : Type 0 where
  refused : Text → Called
  answered : List Content → Bool → Called

abbrev pub call_mcp_result : String → String → Called → CallResult
call_mcp_result server tool (refused e) = call_failed server tool e
call_mcp_result server tool (answered parts is_error) =
    result_of (extract_mcp_result parts is_error)

module _ (calls : ℕ → String → Params → Called) where
  -- the call where a connection has the tool, or the result of the later connections
  abbrev pub call_or_later : Connection → Params → Option McpTool → CallResult → CallResult
  call_or_later c params none later = later
  call_or_later c params (some t) later =
      call_mcp_result c.server t.tool_name (calls c.session t.tool_name params)

  -- `CallTool`
  unfoldable pub call_mcp_tool : String → Params → List Connection → CallResult
  unfolding lookup
  call_mcp_tool id params [] = not_owned id
  call_mcp_tool id params (c ∷ cs) =
      call_or_later c params (lookup id c.tools) (call_mcp_tool id params cs)

-- `Close`: the connections after it, and the sessions that it closes
unfoldable pub close : List Connection → List Connection × List ℕ
close conns = ([], map (λ c. c.session) conns)
