-- ===== src/Tools.antt =====
-- src/contracts/tool-types.ts: the metadata that a tool declares, its normal form, and the tools
-- that the registry keeps. Schemas, executors and provenance belong to the host and stay abstract.
pub mod Laws
use pi_ptc_advanced.Common.{
  Bool, true, false, Option, none, some, get_or, or_else, is_true, List, Text, if◌then◌else◌,
}

pub data PtcExecutionPolicy : Type 0 where
  read_only mutating : PtcExecutionPolicy

pub data PtcToolDefaultExposure : Type 0 where
  safe_by_default opt_in not_safe_by_default : PtcToolDefaultExposure

pub data PtcCaller : Type 0 where
  direct code_execution : PtcCaller

pub record PtcToolOptions : Type 0 where
  pub enabled : Option Bool
  pub callable : Option Bool
  pub read_only : Option Bool
  pub policy : Option PtcExecutionPolicy
  pub python_name : Option Text
  pub default_exposure : Option PtcToolDefaultExposure
  pub callers : Option (List PtcCaller)

pub record NormalizedPtcToolOptions : Type 0 where
  pub callable : Bool
  pub execution_policy : PtcExecutionPolicy
  pub is_read_only : Bool
  pub python_name : Option Text
  pub default_exposure : Option PtcToolDefaultExposure

-- `executionPolicy === "read-only"`
abbrev pub is_read_only_policy : PtcExecutionPolicy → Bool
is_read_only_policy read_only = true
is_read_only_policy mutating = false

normalize_options : PtcToolOptions → NormalizedPtcToolOptions
normalize_options ptc =
    let execution_policy : PtcExecutionPolicy =
      get_or ptc.policy (if is_true ptc.read_only then read_only else mutating) in
    record {
      callable = get_or (or_else ptc.callable ptc.enabled) false;
      execution_policy = execution_policy;
      is_read_only = is_read_only_policy execution_policy;
      python_name = ptc.python_name;
      default_exposure = ptc.default_exposure;
    }

unfoldable pub normalize_ptc_tool_options : Option PtcToolOptions → Option NormalizedPtcToolOptions
unfolding normalize_options
normalize_ptc_tool_options none = none
normalize_ptc_tool_options (some ptc) = some (normalize_options ptc)

pub data ToolSource : Type 0 where
  builtin alias extension : ToolSource

-- What the host gives: the types of schemas, executors, provenance and call parameters, the schema
-- that the literal `{ type: "object", properties: {} }` is, and typebox's check of parameters against
-- a schema, with the path and the message of each error.
pub record Host : Type 1 where
  pub Schema : Type 0
  pub Execute : Type 0
  pub SourceInfo : Type 0
  pub Params : Type 0
  pub empty_object_schema : Schema
  pub check : Schema → Params → Bool
  pub errors : Schema → Params → List (Text × Text)

-- An executor of the host, or the one that `createUnavailableExecute` builds, which only throws.
pub data Executor (h : Host) : Type 0 where
  provided : h.Execute → Executor h
  unavailable : Text → Executor h

pub record ToolInfo (h : Host) : Type 0 where
  pub name : Text
  pub description : Text
  pub parameters : h.Schema
  pub execute : Executor h
  pub source : ToolSource
  pub source_info : Option h.SourceInfo
  pub is_read_only : Bool
  pub ptc : Option PtcToolOptions
  pub prompt_snippet : Option Text
  pub prompt_guidelines : Option (List Text)

pub record ActivePiToolInfo (h : Host) : Type 0 where
  pub name : Text
  pub description : Text
  pub parameters : h.Schema
  pub source_info : Option h.SourceInfo
  pub execute : Option h.Execute
  pub ptc : Option PtcToolOptions

-- `ToolDefinition` of the host with the `ptc` field.
pub record PtcToolDefinition (h : Host) : Type 0 where
  pub name : Text
  pub label : Text
  pub description : Text
  pub prompt_snippet : Option Text
  pub prompt_guidelines : Option (List Text)
  pub parameters : h.Schema
  pub execute : h.Execute
  pub source_info : Option h.SourceInfo
  pub ptc : Option PtcToolOptions

-- `type` is always "code_execution".
pub record CallerMetadata : Type 0 where
  pub parent_tool_call_id : Option Text
  pub nested_call_id : Text
