-- ===== src/Examples/Data.antt =====
-- The data of the examples: one host with two tools, its library routines replaced by simple ones.
use master_control.Prelude.{concat, String, none, List, [], ◌∷◌, ◌==◌}
use master_control.Value.{Value, Fields}
use master_control.Codec.{Codec, Texts}
use master_control.Tools.Spec.{ToolSpec, RiskLevel}
use master_control.Policy.Loader.{PolicyFile}
use master_control.Approvals.Rows as Approvals
use master_control.Approvals.Invariant.{IsConsistent}
use master_control.Approvals.Methods.{create_tool_approval}
use master_control.Approvals.Invariant.{create_tool_approval-IsConsistent}
use master_control.Runtime.State.{returned, crashed, Tool, Host, State}

abbrev pub plain_codec : Codec
plain_codec = record {
  dumps = λ v. "{}";
  loads = λ s. none;
  sha256 = λ s. s;
  quote = λ s. s;
  repr = λ s. concat ("'" ∷ s ∷ "'" ∷ []);
}

abbrev pub plain_texts : Texts
plain_texts = record { lower = λ s. s; fnmatch = λ name pattern. name == pattern }

abbrev pub restart_spec : ToolSpec
restart_spec = record {
  name = "restart_service";
  description = "Restart a service.";
  risk = RiskLevel.privileged;
  arguments = "name" ∷ [];
}

-- The world of the examples is the list of what was done.
abbrev pub restart_tool : Tool (List String)
restart_tool = record {
  spec = restart_spec;
  invoke = λ arguments done.
      (returned (Fields.field "status" (Value.str "ok") Fields.end), "restart" ∷ done);
}

abbrev pub broken_tool : Tool (List String)
broken_tool = record {
  spec = record restart_spec { name = "broken" };
  invoke = λ arguments done. (crashed "OSError", done);
}

abbrev pub example_host : Host (List String)
example_host = record {
  codec = plain_codec;
  texts = plain_texts;
  resolve = λ s. s ∷ [];
  state_dir = "state" ∷ [];
  now = λ done. "2026-01-01 00:00:00";
  expires_at = λ start seconds. start;
  policy_file = λ done. PolicyFile.missing;
  tools = ("restart_service", restart_tool) ∷ ("broken", broken_tool) ∷ [];
}

abbrev pub no_approvals : Approvals.Table
no_approvals = record { rows = []; next_id = 1 }

pub no_approvals-IsConsistent : IsConsistent no_approvals
no_approvals-IsConsistent = record { below = tt; ascending = tt; one_active = tt; stamped = tt }

abbrev pub example_arguments : Fields
example_arguments = Fields.field "name" (Value.str "nginx") Fields.end

abbrev pub new_approval : String → Approvals.NewApproval
new_approval tool = record {
  tool_name = tool;
  risk = "privileged";
  arguments = example_arguments;
  audit_context = Fields.end;
  summary = "";
  cli_command = "";
  chat_command = "";
}

abbrev pub one_pending : String → Approvals.Table
one_pending tool =
    (create_tool_approval plain_codec "2026-01-01 00:00:00" (new_approval tool) no_approvals).1

pub one_pending-IsConsistent : (tool : String) → IsConsistent (one_pending tool)
one_pending-IsConsistent tool =
    create_tool_approval-IsConsistent plain_codec "2026-01-01 00:00:00" (new_approval tool)
      no_approvals no_approvals-IsConsistent

abbrev pub example_state : Approvals.Table → State (List String)
example_state approvals = record {
  world = [];
  loader = record { cached_key = none; cached_policy = none };
  sessions = 1 ∷ [];
  approvals = approvals;
  recommendations = record { rows = []; next_id = 1 };
  observations = [];
  audit = [];
}
