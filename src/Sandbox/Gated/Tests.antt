-- ===== src/Sandbox/Gated/Tests.antt =====
-- The gate in front of a sandbox that counts its executions.
use driver_os.Base.{ℕ, ◌+◌, true, [], ◌∷◌, none, some, Text, codes}
use driver_os.Sandbox.Gated.{Command, ask_all, Sandbox, answer, Approver, new_gated, exec}
use driver_os.Sandbox.Gated.Execution.{Gating, exec-Gating}

abbrev counting : Sandbox ℕ
counting = record {
  exec = λ cmd w. (some (record { exit_code = 0; stderr = [] }), w + 1);
  read_file = λ path w. some (codes "text");
  read_file_limit = none;
  make_dir_all = none;
  append_file = none;
  root = none;
  workdir = none;
}

abbrev agrees : Approver ℕ
agrees r w = (answer true, w)

abbrev shell : Text → Command
shell line = record { path = codes "sh"; args = codes "-c" ∷ line ∷ [] }

exec-Gating_example :
    let s = new_gated counting (some agrees) (some ask_all) in
    Gating s (shell (codes "rm -r build")) 3 (exec s (shell (codes "rm -r build")) 3)
exec-Gating_example =
    exec-Gating (new_gated counting (some agrees) (some ask_all)) (shell (codes "rm -r build")) 3
