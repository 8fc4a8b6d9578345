-- ===== src/WorkItem/Examples.antt =====
-- The theorems on work item codes at concrete inputs, and the examples of
-- src/modules/project/utils/work-item-code.spec.ts.
use prism_nestjs.Prelude.{◌≡◌, refl, none, some, ◌∷◌, ◌++◌, arith, map}
use prism_nestjs.Prelude.Text.{Text, codes, trim, to_upper}
use prism_nestjs.Prelude.Decimal.{show, read}
use prism_nestjs.WorkItem.Code.{
  ParsedWorkItemCode, parse_work_item_code, code_of, IsCode, parse_work_item_code-code_of,
  parse_work_item_code-IsCode,
}
use prism_nestjs.WorkItem.Search.{
  match_here, extract_work_item_code, extract_work_item_code-code_of,
}

-- Upper case on ASCII.
abbrev ascii_upper : Text → Text
ascii_upper = map to_upper

abbrev task_346 : ParsedWorkItemCode
task_346 = record { prefix = codes "TASK"; seq = 346 }

parses : parse_work_item_code ascii_upper (codes " task-346 ") ≡ some task_346
unfolding parse_work_item_code trim read
parses = refl

rejects_zero : parse_work_item_code ascii_upper (codes "TASK-0") ≡ none
unfolding parse_work_item_code trim read
rejects_zero = refl

rejects_short : parse_work_item_code ascii_upper (codes "TA-1") ≡ none
unfolding parse_work_item_code trim read
rejects_short = refl

finds_bracketed :
    extract_work_item_code ascii_upper (codes "[task-346] dispatch agent workflows") ≡ some task_346
unfolding extract_work_item_code match_here parse_work_item_code trim read
finds_bracketed = refl

finds_first :
    extract_work_item_code ascii_upper (codes "PROJ-12 supersedes TASK-7")
    ≡ some (record { prefix = codes "PROJ"; seq = 12 })
unfolding extract_work_item_code match_here parse_work_item_code trim read
finds_first = refl

ignores_glued : extract_work_item_code ascii_upper (codes "XTASK-346 TASK-346X") ≡ none
unfolding extract_work_item_code match_here parse_work_item_code trim read
ignores_glued = refl

parse_work_item_code-code_of_example :
    parse_work_item_code ascii_upper (codes " task-346 ") ≡ some task_346
unfolding trim code_of show
parse_work_item_code-code_of_example =
    parse_work_item_code-code_of ascii_upper (codes " task-346 ") (codes "TASK") 346 refl refl refl
      (omega arith) (omega arith)

parse_work_item_code-IsCode_example : IsCode task_346 (ascii_upper (trim (codes " task-346 ")))
unfolding parse_work_item_code trim read
parse_work_item_code-IsCode_example =
    parse_work_item_code-IsCode ascii_upper (codes " task-346 ") task_346 refl

extract_work_item_code-code_of_example :
    extract_work_item_code ascii_upper (codes "TASK" ++ 45 ∷ (show 346 ++ codes ": add dispatch"))
    ≡ some task_346
unfolding trim code_of show
extract_work_item_code-code_of_example =
    extract_work_item_code-code_of ascii_upper (codes "TASK") 346 (codes ": add dispatch") refl refl
      refl (omega arith) (omega arith) refl
