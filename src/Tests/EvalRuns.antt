-- ===== src/Tests/EvalRuns.antt =====
-- A judge that answers in a Markdown fence, a parser that knows one document, and a table.
use llmgov.Base.{
  ℕ, ◌*◌, ◌≡◌, ◌↔◌, refl, inl, Bool, true, false, none, some, [], ◌∷◌, ◌++◌, Text, All, codes,
  text_eq, strip, is_empty, if◌then◌else◌,
}
use llmgov.Lines.{
  fence, is_break, splitlines, lines_behind, starts_with, unfence, join_lines, drop_last_fence,
  drop_first_fence,
}
use llmgov.Lines.Fence.{IsPlain}
use llmgov.Externals.{ModelResponse}
use llmgov.Eval.{
  Grader, ok, value, malformed, failed, valid, broken, validate_schema, ask_judge, content_of,
  grade_of, evaluate_and_record_response,
}
use llmgov.Eval.Async.{run_llm_judge, async_ask_judge, async_cleaned, async_grade_of}
use llmgov.Eval.Schema.{IsLost}
use llmgov.Eval.Recorded.{judge_model, row_with, Explains, evaluate-run_llm_judge, evaluate-IsLost}
use llmgov.Eval.Reply.{fenced, grade_of-fenced}
use llmgov.Tests.Values.{numbers}

abbrev document : Text
document = codes "{\"k\":4}"

abbrev reply : Text → ModelResponse
reply content = record {
  id = none;
  created = none;
  model = none;
  choices =
      record {
        index = 0;
        message = record { role = codes "assistant"; content = some content };
        finish_reason = none;
      }
      ∷ [];
  usage = none;
}

-- The one document has the score 4 under any key; a text that starts with a bracket nests too deep.
abbrev pub grader : Grader numbers
grader = record {
  V = ℕ;
  Schema = Bool;
  loads = λ t.
      if text_eq t document
      then value 4
      else if starts_with (codes "[") t
      then failed (codes "maximum recursion depth exceeded")
      else malformed (codes "Expecting value");
  validate = λ v schema. if schema then valid else broken;
  get = λ v key. ok (if text_eq key (codes "judge_score") then some v else none);
  to_float = λ v. ok (v * 100);
  to_str = λ v. [];
  complete = λ call. ok (reply (fenced (codes "json") document));
  acomplete = λ call. ok (reply (fenced (codes "json") document));
  gemini_api_key = [];
  gemini_environment = none;
  now = codes "now";
  insert = λ row. some row;
}

-- The boundaries of lines.
lines_read :
    splitlines (b'a' ∷ 13 ∷ 10 ∷ 10 ∷ b'b' ∷ 8232 ∷ b'c' ∷ 10 ∷ [])
    ≡ codes "a" ∷ [] ∷ codes "b" ∷ codes "c" ∷ []
unfolding lines_behind
lines_read = refl

-- A line separator, which JSON allows within a text, is read as a line feed, which it does not.
separator_replaced :
    unfence (fenced [] (b'"' ∷ b'a' ∷ 8232 ∷ b'b' ∷ b'"' ∷ []))
    ≡ b'"' ∷ b'a' ∷ 10 ∷ b'b' ∷ b'"' ∷ []
unfolding unfence strip
separator_replaced = refl

-- A fence on one line leaves nothing to parse.
one_line : unfence (fence ++ document ++ fence) ≡ []
unfolding unfence strip
one_line = refl

no_breaks : All (λ c. is_break c ≡ false) (codes "json")
unfolding is_break
no_breaks = (refl, (refl, (refl, (refl, tt))))

document-IsPlain : All IsPlain document
unfolding is_break
document-IsPlain =
    (inl refl, (inl refl, (inl refl, (inl refl, (inl refl, (inl refl, (inl refl, tt)))))))

bare_graded : starts_with fence (strip document) ≡ false
unfolding strip starts_with
bare_graded = refl

grade_of-fenced_example :
    grade_of grader (fenced (codes "json") document) ≡ grade_of grader document
grade_of-fenced_example =
    grade_of-fenced grader (codes "json") document no_breaks document-IsPlain bare_graded

graded_four :
    run_llm_judge grader (codes "q") (codes "a") judge_model
    ≡ (400, codes "Evaluation completed successfully.")
unfolding run_llm_judge async_ask_judge async_cleaned async_grade_of content_of strip text_eq
    starts_with join_lines drop_last_fence drop_first_fence lines_behind
graded_four = refl

plain_valid : validate_schema grader (codes "fine") none ≡ some true
unfolding validate_schema strip starts_with
plain_valid = refl

evaluate-run_llm_judge_example :
    (graded : ℕ × Text) × (evaluate_and_record_response grader
        (codes "t")
        (codes "q")
        (codes "fine")
        none
        false
        none
        []
      ≡ row_with grader (codes "t") (codes "q") (codes "fine") none false none true graded ∷ [])
    × (graded.0 ≡ (run_llm_judge grader (codes "q") (codes "fine") judge_model).0)
    × Explains grader
        (codes "t")
        (codes "q")
        (codes "fine")
        none
        false
        none
        graded
        (ask_judge grader judge_model (codes "q") (codes "fine"))
evaluate-run_llm_judge_example =
    evaluate-run_llm_judge grader (codes "t") (codes "q") (codes "fine") none false none true []
      (λ row. refl) (λ call. refl) plain_valid

evaluate-IsLost_example :
    (evaluate_and_record_response grader (codes "t") (codes "q") (codes "[[") none false none []
      ≡ [])
    ↔ ((is_empty (strip (codes "[[")) ≡ false) × IsLost grader (strip (codes "[[")) none)
evaluate-IsLost_example =
    evaluate-IsLost grader (codes "t") (codes "q") (codes "[[") none false none [] (λ row. refl)
