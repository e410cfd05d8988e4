-- ===== src/Services/OpenAi.antt =====
-- The language model service of services/openai/llm/llm.go: the requests that it builds from the
-- conversation. `convertMessages`, `convertTools` and what they call.
pub mod Stream
pub mod Client
pub mod Completion
pub mod Fragments
pub mod Streamed
pub mod Gathered
pub mod Resets
pub mod Requests
use interact_kit_sdk.Text.{codes, is_empty, text_eq, Text}
use interact_kit_sdk.Events.{tool, system, assistant, user, Role, ParameterType, LlmTool, Parameter}
use interact_kit_sdk.Audio.Bytes.{Bytes}
use interact_kit_sdk.Prelude.{String, Option, none, some, List, [], ◌∷◌, ◌++◌, if◌then◌else◌}

-- `LLMMediaType` of core/llm.go; `unknown_media` is any other value of the string type
pub data MediaType : Type 0 where
  audio_pcm audio_wav audio_mp3 video_mp4 video_webm image_png image_jpeg unknown_media : MediaType

-- `LLMMedia` of core/llm.go
pub record Media : Type 0 where
  pub payload : Bytes
  pub media_type : MediaType

-- `LLMMessage` of core/llm.go with its media, where `none` is the nil pointer
pub record MediaMessage : Type 0 where
  pub role : Role
  pub message : Text
  pub media : Option (List Media)

-- a part of a message, and a message, of the OpenAI client
pub data Part : Type 0 where
  text_part : Text → Part
  image_part : Bytes → Part

pub record ChatMessage : Type 0 where
  pub chat_role : Text
  pub content : Text
  pub parts : List Part

-- `convertRole`, for the four roles of core/llm.go
unfoldable pub convert_role : Role → Text
convert_role user = codes "user"
convert_role assistant = codes "assistant"
convert_role system = codes "system"
convert_role tool = codes "tool"

-- `convertMediaType`
unfoldable pub convert_media_type : MediaType → Text
convert_media_type image_png = codes "image/png"
convert_media_type image_jpeg = codes "image/jpeg"
convert_media_type audio_mp3 = codes "audio/mpeg"
convert_media_type audio_wav = codes "audio/wav"
convert_media_type audio_pcm = codes "audio/pcm"
convert_media_type video_mp4 = codes "video/mp4"
convert_media_type video_webm = codes "video/webm"
convert_media_type unknown_media = codes "application/octet-stream"

-- `convertMediaToURL`, as bytes: `%s` prints the bytes of the data
unfoldable pub convert_media_to_url : Media → Bytes
unfolding convert_media_type
convert_media_to_url m =
    codes "data:" ++ (convert_media_type m.media_type ++ (codes ";base64," ++ m.payload))

unfoldable pub image_parts : List Media → List Part
unfolding convert_media_to_url
image_parts [] = []
image_parts (m ∷ ms) = image_part (convert_media_to_url m) ∷ image_parts ms

-- The body of the loop of `convertMessages`. Its error branch is never taken, as
-- `convertMediaToURL` returns none.
unfoldable pub convert_with : Role → Text → Option (List Media) → ChatMessage
unfolding convert_role image_parts
convert_with r t none = record { chat_role = convert_role r; content = t; parts = [] }
convert_with r t (some []) = record { chat_role = convert_role r; content = t; parts = [] }
convert_with r t (some (m ∷ ms)) = record {
  chat_role = convert_role r;
  content = [];
  parts = text_part t ∷ image_parts (m ∷ ms);
}

-- `convertMessages`
unfoldable pub convert_messages : List MediaMessage → List ChatMessage
unfolding convert_with
convert_messages [] = []
convert_messages (m ∷ ms) = convert_with m.role m.message m.media ∷ convert_messages ms

-- `convertParameterType`
unfoldable pub convert_parameter_type : ParameterType → Text
convert_parameter_type ParameterType.string = codes "string"
convert_parameter_type ParameterType.number = codes "integer"
convert_parameter_type ParameterType.boolean = codes "boolean"
convert_parameter_type ParameterType.object = codes "object"

-- a property of the schema of a tool, and the schema, where `none` is a key that is not set
pub record Property : Type 0 where
  pub property_type : Text
  pub property_description : Text
  pub property_example : Option Text

pub record Schema : Type 0 where
  pub properties : List (Text × Property)
  pub required_names : Option (List Text)

pub record FunctionTool : Type 0 where
  pub function_name : String
  pub function_description : Text
  pub schema : Schema

unfoldable pub convert_parameter : Parameter → Property
unfolding convert_parameter_type
convert_parameter p = record {
  property_type = convert_parameter_type p.type;
  property_description = p.description;
  property_example = if is_empty p.example then none else some p.example;
}

-- `properties[name] = prop`
unfoldable pub set_property : Text → Property → List (Text × Property) → List (Text × Property)
set_property name prop [] = (name, prop) ∷ []
set_property name prop ((first, old) ∷ rest) =
    let later = set_property name prop rest in
    if text_eq first name then (name, prop) ∷ rest else (first, old) ∷ later

-- the loop over the parameters of a tool
unfoldable pub convert_parameters :
    List Parameter → List (Text × Property) → List Text → List (Text × Property) × List Text
unfolding convert_parameter set_property
convert_parameters [] props required = (props, required)
convert_parameters (p ∷ ps) props required =
    convert_parameters ps (set_property p.name (convert_parameter p) props)
      (if p.required then required ++ p.name ∷ [] else required)

abbrev pub names_or_none : List Text → Option (List Text)
names_or_none [] = none
names_or_none (n ∷ ns) = some (n ∷ ns)

-- `convertTools`
unfoldable pub convert_tools : List LlmTool → List FunctionTool
unfolding convert_parameters
convert_tools [] = []
convert_tools (t ∷ ts) =
    let (props, required) = convert_parameters t.parameters [] [] in
    record {
      function_name = t.tool_id;
      function_description = t.description;
      schema = record { properties = props; required_names = names_or_none required };
    }
    ∷ convert_tools ts
