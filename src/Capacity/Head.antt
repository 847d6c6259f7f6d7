-- ===== src/Capacity/Head.antt =====
-- The heads of the two branches that a request names.
use desktop_pc24x7_runtime.Prelude.{Bool, true, false, ◌&&◌}
use desktop_pc24x7_runtime.Json.{Json, null, get, is_text}
use desktop_pc24x7_runtime.Result.{Result, ok, ◌>>=◌}
use desktop_pc24x7_runtime.Broker.Comment.{get_or_raise}
use desktop_pc24x7_runtime.Capacity.Issue.{require, string_of}
use desktop_pc24x7_runtime.Capacity.Event.{get_or_empty}

-- branch.get("commit", {}).get("sha")
unfoldable pub head_of : Json → Result Json
unfolding get_or_empty get_or_raise
head_of branch = do commit ← get_or_empty "commit" branch; get_or_raise "sha" commit

-- Of `a and b`, the second branch is looked at only if the first is right.
abbrev pub head_after : Bool → Json → Result Json
head_after true branch = head_of branch
head_after false branch = ok null

unfoldable pub check_heads : Json → Json → Json → Result (Unit {0})
check_heads request main rules = do
  head ← head_of main
  rules_head ← head_after (is_text head (string_of (get "expected_head_sha" request))) rules
  require
      (is_text head (string_of (get "expected_head_sha" request))
        && is_text rules_head (string_of (get "expected_rules_sha" request)))
      "SOURCE_CHANGED"
