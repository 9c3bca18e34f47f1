-- ===== src/Eval/Recorded.antt =====
-- The rows of evaluation results.
use llmgov.Base.{
  ◌≡◌, ◌≢◌, ◌↔◌, refl, ap, sym, ◌∙◌, Bool, false, Option, none, some, List, [], ◌∷◌, ◌++◌, Text,
  codes, is_empty, strip, arith, length, length-append,
}
use llmgov.Floats.{Floats}
use llmgov.Lines.{unfence}
use llmgov.Eval.{
  EvalRow, Grader, JudgeCall, Tried, ok, raised, numeric, validate_schema, ask_judge, or_fallback,
  judge_messages, judge_call, grade_of, record_eval_result, evaluate_and_record_response,
}
use llmgov.Eval.Async.{
  run_llm_judge, async_ask_judge, async_messages, async_call, async_grade_of, async_cleaned,
}
use llmgov.Eval.Schema.{IsLost, validate_schema_iff}

abbrev pub judge_model : Text
judge_model = codes "gemini/gemini-2.5-flash"

module _ {f : Floats} (g : Grader f) where
  -- Every row is stored as it is given.
  abbrev pub IsStored : Type 0
  IsStored = (row : EvalRow f.F) → g.insert row ≡ some row

  module _ (trace_id prompt response_text : Text) (schema : Option g.Schema) (hand_labeled : Bool)
      (timestamp : Option Text) where
    -- A row with the validator's answer, a score and a rationale.
    abbrev pub row_with : Bool → f.F × Text → EvalRow f.F
    row_with is_valid (score, rationale) = record {
      trace_id = trace_id;
      timestamp = elim timestamp [ none ↦ g.now | some given ↦ given ];
      schema_valid = numeric is_valid;
      judge_score = score;
      judge_rationale = rationale;
      hand_labeled = numeric hand_labeled;
    }

    -- What the synchronous judge's grade is where its call or the reading of its reply may fail.
    abbrev pub settled : Tried (f.F × Text) → f.F × Text
    settled r = or_fallback g (codes "Judge evaluation fallback: ") r

    -- Where the validator answers and rows are stored, an evaluation adds one row, with the
    -- validator's answer and the judge's score and rationale.
    pub evaluate-row_with :
        (is_valid : Bool) (rows : List (EvalRow f.F))
        → IsStored
        → validate_schema g response_text schema ≡ some is_valid
        → evaluate_and_record_response g trace_id prompt response_text schema hand_labeled timestamp
            rows
          ≡ rows ++ row_with is_valid (settled (ask_judge g judge_model prompt response_text)) ∷ []
    unfolding evaluate_and_record_response record_eval_result
    evaluate-row_with is_valid rows stored v =
        rw (evaluate_and_record_response, v)
          (rw
            (
              record_eval_result,
              stored (row_with is_valid (settled (ask_judge g judge_model prompt response_text))),
            )
            refl)

    -- How the grade of an evaluation and that of the asynchronous judge go together, by how the
    -- judge's call ends.
    abbrev pub Explains : f.F × Text → Tried (f.F × Text) → Type 0
    Explains graded (ok same) =
        (graded ≡ same) × (run_llm_judge g prompt response_text judge_model ≡ same)
    Explains graded (raised error) =
        (graded ≡ (f.hundredths 500, codes "Judge evaluation fallback: " ++ error))
        × (run_llm_judge g prompt response_text judge_model
            ≡ (f.hundredths 500, codes "Judge evaluation fallback due to API state: " ++ error))

    -- The asynchronous call and the synchronous one are answered alike.
    abbrev pub AnswersAlike : Type 0
    AnswersAlike = (call : JudgeCall f.F) → g.acomplete call ≡ g.complete call

    same_judged :
        AnswersAlike
        → async_ask_judge g judge_model prompt response_text
          ≡ ask_judge g judge_model prompt response_text
    unfolding async_ask_judge ask_judge async_call judge_call async_messages judge_messages
        async_grade_of async_cleaned grade_of unfence
    same_judged alike = rw (alike (judge_call g judge_model prompt response_text)) refl

    explained :
        (r : Tried (f.F × Text))
        → ask_judge g judge_model prompt response_text ≡ r
        → AnswersAlike
        → Explains (settled r) r
    unfolding run_llm_judge
    explained (ok graded) e alike = (refl, rw (run_llm_judge, same_judged alike ∙ e) refl)
    explained (raised error) e alike = (refl, rw (run_llm_judge, same_judged alike ∙ e) refl)

    same_score :
        (r : Tried (f.F × Text))
        → ask_judge g judge_model prompt response_text ≡ r
        → AnswersAlike
        → (settled r).0 ≡ (run_llm_judge g prompt response_text judge_model).0
    unfolding run_llm_judge
    same_score (ok graded) e alike = rw (run_llm_judge, same_judged alike ∙ e) refl
    same_score (raised error) e alike = rw (run_llm_judge, same_judged alike ∙ e) refl

    -- Where the validator answers, rows are stored, and the asynchronous and the synchronous call
    -- are answered alike: an evaluation adds one row, with the validator's answer and the score that
    -- `run_llm_judge` gives for the same model. Its rationale is that one's too, unless the judge's
    -- call or the reading of its reply fails: then both scores are 5.0, and both rationales are the
    -- text of the exception, behind different prefixes.
    pub evaluate-run_llm_judge :
        (is_valid : Bool) (rows : List (EvalRow f.F))
        → IsStored
        → AnswersAlike
        → validate_schema g response_text schema ≡ some is_valid
        → (graded : f.F × Text) × (evaluate_and_record_response g trace_id prompt response_text
              schema hand_labeled timestamp rows
            ≡ rows ++ row_with is_valid graded ∷ [])
          × (graded.0 ≡ (run_llm_judge g prompt response_text judge_model).0)
          × Explains graded (ask_judge g judge_model prompt response_text)
    evaluate-run_llm_judge is_valid rows stored alike v =
        let r = ask_judge g judge_model prompt response_text in
        (
          settled r,
          evaluate-row_with is_valid rows stored v,
          same_score r refl alike,
          explained r refl alike,
        )

    longer : (rows : List (EvalRow f.F)) (row : EvalRow f.F) → rows ++ row ∷ [] ≢ rows
    longer rows row e = absurd (omega (arith, sym (length-append rows (row ∷ [])) ∙ ap length e))

    lost_none :
        (r : Option Bool)
        → validate_schema g response_text schema ≡ r
        → (rows : List (EvalRow f.F)) → IsStored
        → evaluate_and_record_response g trace_id prompt response_text schema hand_labeled timestamp
            rows
          ≡ rows
        → validate_schema g response_text schema ≡ none
    lost_none none v rows stored e = v
    lost_none (some is_valid) v rows stored e =
        absurd (longer rows _ (sym (evaluate-row_with is_valid rows stored v) ∙ e))

    -- Where rows are stored, an evaluation leaves the table as it is exactly where the validator
    -- raises: where the text is not blank and its parsing fails otherwise than by a syntax error, or
    -- the schema is wrong. The judge's score of such a text is lost.
    pub evaluate-IsLost :
        (rows : List (EvalRow f.F))
        → IsStored
        → (evaluate_and_record_response g trace_id prompt response_text schema hand_labeled
              timestamp rows
            ≡ rows)
          ↔ ((is_empty (strip response_text) ≡ false) × IsLost g (strip response_text) schema)
    unfolding evaluate_and_record_response
    evaluate-IsLost rows stored =
        let raises = (validate_schema_iff g response_text schema).1 in
        (
          λ e. raises.0 (lost_none (validate_schema g response_text schema) refl rows stored e),
          λ lost. rw (evaluate_and_record_response, raises.1 lost) refl,
        )
