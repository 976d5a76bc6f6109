-- ===== src/Console/Settings/Editor.antt =====
-- frontend/src/App.tsx: `TargetEditor`, which is mounted anew for each target that is edited.
use codex_queue_bot.Base.{
  ℕ, Bool, true, false, ◌&&◌, [], Option, none, some, Text, codes, if◌then◌else◌, is_empty,
}
use codex_queue_bot.Base.Trim.{trim}
use codex_queue_bot.Console.Api.Types.{ConfigurationTarget, TargetInput}
use codex_queue_bot.Console.Lines.{js_space, split_lines, join_lines}

pub record Editor : Type 0 where
  -- the prop `initial`: none for a new target
  pub initial : Option ConfigurationTarget
  pub value : TargetInput
  pub overrides : Text
  pub error : Text
  -- the value that `onChange` of a reveal under way has captured
  pub asked : Option TargetInput

abbrev empty_target : TargetInput
empty_target = record {
  sort_order = none;
  name = [];
  api_base_url = [];
  api_key = [];
  model = [];
  wire_api = codes "responses";
  config_overrides = [];
}

-- The initial state of the editor.
unfoldable pub new_editor : Option ConfigurationTarget → Editor
new_editor none = record {
  initial = none;
  value = empty_target;
  overrides = [];
  error = [];
  asked = none;
}
new_editor (some target) = record {
  initial = some target;
  value = record {
    sort_order = some target.sort_order;
    name = target.name;
    api_base_url = target.api_base_url;
    api_key = [];
    model = target.model;
    wire_api = target.wire_api;
    config_overrides = target.config_overrides;
  };
  overrides = join_lines target.config_overrides;
  error = [];
  asked = none;
}

pub data Edit : Type 0 where
  name api_base_url api_key model wire_api overrides : Text → Edit
  sort_order : Option ℕ → Edit

unfoldable pub edited : Edit → Editor → Editor
edited (name text) editor = record editor { value = record editor.value { name = text } }
edited (api_base_url text) editor = record editor {
  value = record editor.value { api_base_url = text };
}
edited (api_key text) editor = record editor { value = record editor.value { api_key = text } }
edited (model text) editor = record editor { value = record editor.value { model = text } }
edited (wire_api text) editor = record editor { value = record editor.value { wire_api = text } }
edited (overrides text) editor = record editor { overrides = text }
edited (sort_order place) editor = record editor {
  value = record editor.value { sort_order = place };
}

abbrev pub is_new : Editor → Bool
is_new editor = elim editor.initial [ none ↦ true | some _ ↦ false ]

-- `!value.api_key.trim()`
abbrev pub blank : Text → Bool
blank text = is_empty (trim js_space text)

-- `submit`: the editor after it, and what `onSave` is called with.
unfoldable pub submit : Editor → Editor × Option TargetInput
submit editor =
    if is_new editor && blank editor.value.api_key
    then (record editor { error = codes "创建 target 时必须提供 API Key" }, none)
    else (
      record editor { error = [] },
      some (record editor.value { config_overrides = split_lines editor.overrides }),
    )
