-- ===== src/Rules/Evaluation.antt =====
-- src/rules.rs: `Evaluation`, `RuleResult` and `Results`.
pub mod Laws
use mintpool.Prelude.{
  ℕ, String, Bool, true, false, not, ◌&&◌, ◌||◌, List, [], ◌∷◌, map, Option, none, some, Result, ok,
  err, any, filter, is_err as failed, str_append,
}
use mintpool.Types.Data.{Report, message}
use mintpool.Storage.Query.{report_text}

pub data Evaluation : Type 0 where
  accept : Evaluation
  ignore : String → Evaluation
  reject : String → Evaluation

unfoldable pub variant : Evaluation → String
variant accept = "accept"
variant (ignore r) = "ignore"
variant (reject r) = "reject"

unfoldable pub reason : Evaluation → Option String
reason accept = none
reason (ignore r) = some r
reason (reject r) = some r

-- `Display for Evaluation`
unfoldable pub display : Evaluation → String
display accept = "Accept"
display (ignore r) = str_append "Ignore (" (str_append r ")")
display (reject r) = str_append "Reject (" (str_append r ")")

pub record RuleResult : Type 0 where
  pub rule_name : String
  pub result : Result Evaluation Report

abbrev pub clone_result : Result Evaluation Report → Result Evaluation Report
clone_result (ok e) = ok e
clone_result (err e) = err (message (report_text e))

-- `Clone for RuleResult`: an error is cloned as its text.
abbrev pub clone : RuleResult → RuleResult
clone r = record { rule_name = r.rule_name; result = clone_result r.result }

-- The fields "result", "reason" and "rule_name" that `Serialize for RuleResult` writes.
unfoldable pub serialize : RuleResult → String × Option String × String
unfolding variant reason
serialize r = elim r.result [
  | ok e ↦ (variant e, reason e, r.rule_name)
  | err e ↦ ("error", some (report_text e), r.rule_name)
]

-- `Results(Vec<RuleResult>)`
abbrev pub Results : Type 0
Results = List RuleResult

abbrev pub rejects : Result Evaluation Report → Bool
rejects (ok accept) = false
rejects (ok (ignore r)) = false
rejects (ok (reject r)) = true
rejects (err e) = false

unfoldable pub is_err : Results → Bool
is_err rs = any (λ r. failed r.result) rs

unfoldable pub is_reject : Results → Bool
unfolding is_err
is_reject rs = not (is_err rs) && any (λ r. rejects r.result) rs

unfoldable pub is_accept : Results → Bool
unfolding is_reject
is_accept rs = not (is_reject rs)

unfoldable pub only_failures : Results → Results
only_failures rs = map clone (filter (λ r. failed r.result || rejects r.result) rs)

unfoldable pub line : RuleResult → String
unfolding display
line r = elim r.result [
  | ok e ↦ str_append r.rule_name (str_append ": " (display e))
  | err e ↦ str_append r.rule_name (str_append ": Error (" (str_append (report_text e) ")"))
]

-- `Display for Results`: the lines joined by newlines.
unfoldable pub display_results : Results → String
unfolding line
display_results [] = ""
display_results (r ∷ []) = line r
display_results (r ∷ s ∷ rs) = str_append (line r) (str_append "\n" (display_results (s ∷ rs)))
