-- ===== src/Context/Tests.antt =====
-- A suite in which the reader authenticates, is authorized and retrieves, and the theorems at it.
-- Here a text is its own digest and UUID and its only word, and every document matches.
use owasp_llm_lab_setup_guid.Base.{
  ◌≡◌, refl, some, String, [], ◌∷◌, arith, lookup, append, any, all, text_in, is_blank, is_space,
  after,
}
use owasp_llm_lab_setup_guid.Json.{
  Json, arr, obj, str, end, field, cons, nil, get, has_exactly, to_list,
}
use owasp_llm_lab_setup_guid.Base.Finds.{find, update_all}
use owasp_llm_lab_setup_guid.Context.Rows.{authenticate, authorize, Store, empty}
use owasp_llm_lab_setup_guid.Context.Register.{
  register, read_ids, distinct, read_documents, read_document, identifier, bounded,
}
use owasp_llm_lab_setup_guid.Context.Stages.{Task, read_value, unique, take, join, filter}
use owasp_llm_lab_setup_guid.Context.Perform.{
  Service, authenticated, conclude, query, retrieve, perform, attempt, begin_stage, end_stage,
}
use owasp_llm_lab_setup_guid.Context.Steps.{registers, begins, ends, Reach, start, later}
use owasp_llm_lab_setup_guid.Context.Granted.{IsGranted}
use owasp_llm_lab_setup_guid.Context.Reachable.{reach-IsGranted}
use owasp_llm_lab_setup_guid.Context.Presented.{Presented, retrieval_of, retrieval-Presented}
use owasp_llm_lab_setup_guid.Context.Once.{begin_once}

abbrev service : Service
service = record {
  digest = λ s. s;
  uuid = λ s. some s;
  words = λ s. s ∷ [];
  search = λ q ds. some ds;
  source_digest = "d";
}

abbrev documents : Json
documents = arr (
    cons
      (obj (
        field "document_id" (str "1")
          (field "tenant" (str "team-a") (field "text" (str "hello") end))))
      nil)

abbrev s1 : Store
s1 =
    after
      (register service.digest service.uuid service.source_digest "s" ("e" ∷ []) documents "r" "v" 0
        empty)
      empty

abbrev begun : String → String → Store → Store
begun stage value s = after (begin_stage service "s" "e" stage (str value) 1 1 s) s

abbrev s2 : Store
s2 = begun "authenticate" "r" s1

abbrev task_1 : Task
task_1 = record { suite_id = "s"; execution_id = "e"; stage = authenticate; value = "r" }

abbrev s3 : Store
s3 = (end_stage service task_1 2 s2).1

abbrev s4 : Store
s4 = begun "authorize" "team-a" s3

abbrev task_2 : Task
task_2 = record { suite_id = "s"; execution_id = "e"; stage = authorize; value = "team-a" }

abbrev s5 : Store
s5 = (end_stage service task_2 2 s4).1

abbrev s6 : Store
s6 = begun "retrieval" "hello" s5

reached-s2 : Reach service empty s2
unfolding register begin_stage read_ids distinct read_documents read_document identifier bounded all
    is_blank is_space text_in get has_exactly to_list lookup append any read_value
reached-s2 =
    later (later start (registers "s" ("e" ∷ []) documents "r" "v" 0 ("s", 0) refl))
      (begins "s" "e" "authenticate" (str "r") 1 1 task_1 refl)

reached-s6 : Reach service empty s6
unfolding register begin_stage read_ids distinct read_documents read_document identifier bounded all
    is_blank is_space text_in get has_exactly to_list lookup append any read_value end_stage attempt
    perform authenticated conclude find update_all
reached-s6 =
    later
      (later
        (later (later reached-s2 (ends task_1 2 _ refl refl refl))
          (begins "s" "e" "authorize" (str "team-a") 1 1 task_2 refl))
        (ends task_2 2 _ refl refl refl))
      (begins "s" "e" "retrieval" (str "hello") 1 1 (retrieval_of "s" "e" "hello") refl)

empty-IsGranted : IsGranted empty
unfolding all find
empty-IsGranted = record { honest = refl; executions = λ x y e h. absurd (ground arith) }

reach-IsGranted_example : IsGranted s6
reach-IsGranted_example = reach-IsGranted service empty s6 reached-s6 empty-IsGranted

retrieval-Presented_example : Presented "s" "e" s6
unfolding register begin_stage read_ids distinct read_documents read_document identifier bounded all
    is_blank is_space text_in get has_exactly to_list lookup append any read_value end_stage attempt
    perform authenticated conclude find update_all query retrieve unique take join filter
retrieval-Presented_example =
    retrieval-Presented service empty s6 reached-s6 empty-IsGranted "s" "e" "hello" 3 _ refl

begin_once_example : ¬ (
    (task_2.suite_id ≡ task_1.suite_id)
    × (task_2.execution_id ≡ task_1.execution_id)
    × (task_2.stage ≡ task_1.stage))
unfolding register begin_stage read_ids distinct read_documents read_document identifier bounded all
    is_blank is_space text_in get has_exactly to_list lookup append any read_value end_stage attempt
    perform authenticated conclude find update_all
begin_once_example =
    begin_once service "s" "e" "authenticate" (str "r") 1 1 s1 s2 task_1 refl s3 s4 task_2
      (later start (ends task_1 2 _ refl refl refl)) "s" "e" "authorize" (str "team-a") 1 1 refl
