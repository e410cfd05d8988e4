-- ===== src/Services/DeepgramStt/Query.antt =====
-- The configuration of services/deepgram/stt/stt.go, and the query of `buildWebSocketURL`.
use interact_kit_sdk.Text.{is_empty, text_eq, decimal, Text, codes}
use interact_kit_sdk.Prelude.Int.{ℤ, pos, negsuc}
use interact_kit_sdk.Prelude.{
  suc, Bool, true, false, Option, none, some, List, [], ◌∷◌, ◌++◌, if◌then◌else◌,
}

-- a value of type `any`, of a kind that the code tells apart
pub data Setting : Type 0 where
  unset other_kind : Setting
  number_of : ℤ → Setting
  flag_of : Bool → Setting
  text_of : Text → Setting

-- `DeepgramConfig`, without `Replace`, which nothing reads
pub record SttConfig : Type 0 where
  pub base_url : Text
  pub model : Text
  pub language : Text
  pub interim_results : Bool
  pub punctuate : Bool
  pub smart_format : Bool
  pub diarize : Bool
  pub profanity_filter : Bool
  pub redact : Text
  pub numerals : Bool
  pub endpointing : Setting
  pub vad_events : Bool
  pub utterance_end_ms : Setting
  pub multichannel : Bool
  pub keywords : List Text
  pub keyterms : List Text
  pub search : List Text
  pub callback : Text
  pub callback_method : Text
  pub extra : List (Text × Text)
  pub tag : List Text
  pub detect_entities : Bool
  pub dictation : Bool
  pub mip_opt_out : Bool
  pub version : Text

-- `DefaultConfig`, with what Go leaves zero written out
unfoldable pub default_config : SttConfig
default_config = record {
  base_url = codes "wss://api.deepgram.com";
  model = codes "nova-2";
  language = [];
  interim_results = true;
  punctuate = true;
  smart_format = true;
  diarize = false;
  profanity_filter = false;
  redact = [];
  numerals = false;
  endpointing = unset;
  vad_events = false;
  utterance_end_ms = unset;
  multichannel = false;
  keywords = [];
  keyterms = [];
  search = [];
  callback = [];
  callback_method = [];
  extra = [];
  tag = [];
  detect_entities = false;
  dictation = false;
  mip_opt_out = false;
  version = [];
}

-- the configuration that `NewDeepgramSTTService` keeps, where `none` is nil
unfoldable pub new_config : Option SttConfig → SttConfig
unfolding default_config
new_config none = default_config
new_config (some c) =
    if is_empty c.base_url then record c { base_url = codes "wss://api.deepgram.com" } else c

-- `url.Values`
abbrev pub Query : Type 0
Query = List (Text × List Text)

-- `q.Set(key, value)`
unfoldable pub set_value : Text → Text → Query → Query
set_value key value [] = (key, value ∷ []) ∷ []
set_value key value ((k, vs) ∷ q) =
    let later = set_value key value q in
    if text_eq k key then (k, value ∷ []) ∷ q else (k, vs) ∷ later

-- `q.Add(key, value)`
unfoldable pub add_value : Text → Text → Query → Query
add_value key value [] = (key, value ∷ []) ∷ []
add_value key value ((k, vs) ∷ q) =
    let later = add_value key value q in
    if text_eq k key then (k, vs ++ value ∷ []) ∷ q else (k, vs) ∷ later

-- the values of a key
unfoldable pub values_at : Text → Query → List Text
values_at key [] = []
values_at key ((k, vs) ∷ q) = let later = values_at key q in if text_eq k key then vs else later

-- `boolToString`
unfoldable pub bool_to_string : Bool → Text
bool_to_string true = codes "true"
bool_to_string false = codes "false"

-- `intToString`
unfoldable pub int_to_string : ℤ → Text
int_to_string (pos n) = decimal n
int_to_string (negsuc n) = 45 ∷ decimal (suc n)

-- a text that is set where it is not empty
unfoldable pub set_text : Text → Text → Query → Query
unfolding set_value
set_text key [] q = q
set_text key (x ∷ xs) q = set_value key (x ∷ xs) q

unfoldable pub set_flag : Text → Bool → Query → Query
unfolding set_value bool_to_string
set_flag key b q = set_value key (bool_to_string b) q

unfoldable pub set_endpointing : Setting → Query → Query
unfolding set_value bool_to_string int_to_string
set_endpointing unset q = q
set_endpointing other_kind q = q
set_endpointing (number_of n) q = set_value (codes "endpointing") (int_to_string n) q
set_endpointing (flag_of b) q = set_value (codes "endpointing") (bool_to_string b) q
set_endpointing (text_of t) q = set_value (codes "endpointing") t q

unfoldable pub set_utterance_end : Setting → Query → Query
unfolding set_value int_to_string
set_utterance_end unset q = q
set_utterance_end other_kind q = q
set_utterance_end (number_of n) q = set_value (codes "utterance_end_ms") (int_to_string n) q
set_utterance_end (flag_of b) q = q
set_utterance_end (text_of t) q = set_value (codes "utterance_end_ms") t q

unfoldable pub add_values : Text → List Text → Query → Query
unfolding add_value
add_values key [] q = q
add_values key (v ∷ vs) q = add_values key vs (add_value key v q)

-- the extra parameters, which replace those of the same name
unfoldable pub set_extra : List (Text × Text) → Query → Query
unfolding set_value
set_extra [] q = q
set_extra ((key, value) ∷ extra) q = set_extra extra (set_value key value q)

-- the flags, in the order in which they are set
unfoldable pub set_flags : SttConfig → Query → Query
unfolding set_flag
set_flags c q = set_flag (codes "mip_opt_out") c.mip_opt_out (
    set_flag (codes "dictation") c.dictation (
      set_flag (codes "detect_entities") c.detect_entities (
        set_flag (codes "multichannel") c.multichannel (
          set_flag (codes "vad_events") c.vad_events (
            set_flag (codes "numerals") c.numerals (
              set_flag (codes "profanity_filter") c.profanity_filter (
                set_flag (codes "diarize") c.diarize (
                  set_flag (codes "smart_format") c.smart_format (
                    set_flag (codes "punctuate") c.punctuate
                      (set_flag (codes "interim_results") c.interim_results q))))))))))

-- the format of the audio
unfoldable pub set_format : Query → Query
unfolding set_value int_to_string
set_format q = set_value (codes "channels") (int_to_string (pos 1)) (
    set_value (codes "sample_rate") (int_to_string (pos 16000))
      (set_value (codes "encoding") (codes "linear16") q))

-- what comes after the format, up to the extra parameters
unfoldable pub set_options : SttConfig → Query → Query
unfolding set_endpointing set_utterance_end add_values set_text
set_options c q = set_text (codes "version") c.version (
    set_text (codes "callback_method") c.callback_method (
      set_text (codes "callback") c.callback (
        add_values (codes "tag") c.tag (
          add_values (codes "search") c.search (
            add_values (codes "keyterm") c.keyterms (
              add_values (codes "keywords") c.keywords
                (set_utterance_end c.utterance_end_ms (set_endpointing c.endpointing q))))))))

-- The query of `buildWebSocketURL`, from that of the base URL.
unfoldable pub build_query : SttConfig → Query → Query
unfolding set_text set_flags set_format set_options set_extra
build_query c q = set_extra c.extra (
    set_options c (
      set_format (
        set_text (codes "redact") c.redact (
          set_flags c
            (set_text (codes "language") c.language (set_text (codes "model") c.model q))))))
