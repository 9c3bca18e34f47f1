-- ===== src/Eval/Async.antt =====
-- app/core/eval.py: `run_llm_judge`, which has its own copy of the judge's code, around LiteLLM's
-- asynchronous call.
use llmgov.Base.{List, [], ◌∷◌, ◌++◌, Text, codes, is_empty, some, strip, if◌then◌else◌}
use llmgov.Floats.{Floats}
use llmgov.Lines.{starts_with, fence, splitlines, drop_first_fence, drop_last_fence, join_lines}
use llmgov.Models.{ChatMessage}
use llmgov.Eval.{
  Tried, ok, raised, ◌>>=◌, Grader, JudgeCall, judge_system_prompt, content_of, tried, or_default,
}

unfoldable pub async_messages : Text → Text → List ChatMessage
unfolding judge_system_prompt
async_messages prompt response_text =
    record { role = codes "system"; content = judge_system_prompt }
    ∷ record {
      role = codes "user";
      content = codes "User Prompt:\n" ++ prompt ++ codes "\n\nAI Response:\n" ++ response_text;
    }
    ∷ []

module _ {f : Floats} (g : Grader f) where
  unfoldable pub async_call : Text → Text → Text → JudgeCall f.F
  unfolding async_messages
  async_call model prompt response_text = record {
    model = model;
    messages = async_messages prompt response_text;
    temperature = f.hundredths 0;
    max_tokens = 256;
    api_key = if is_empty g.gemini_api_key then g.gemini_environment else some g.gemini_api_key;
  }

  -- `content.strip()` without its fence, if it starts with one.
  unfoldable pub async_cleaned : Text → Text
  async_cleaned content =
      let cleaned = strip content in
      if starts_with fence cleaned
      then strip (join_lines (drop_last_fence (drop_first_fence (splitlines cleaned))))
      else cleaned

  unfoldable pub async_grade_of : Text → Tried (f.F × Text)
  unfolding async_cleaned
  async_grade_of content = do
    document ← tried (g.loads (async_cleaned content))
    given ← g.get document (codes "judge_score")
    score ← or_default g.to_float (f.hundredths 500) given
    reason ← g.get document (codes "judge_rationale")
    rationale ←
        or_default (λ v. ok (g.to_str v)) (codes "Evaluation completed successfully.") reason
    ok (score, rationale)

  -- The body of its `try`.
  unfoldable pub async_ask_judge : Text → Text → Text → Tried (f.F × Text)
  unfolding async_call content_of async_grade_of
  async_ask_judge model prompt response_text = do
    completion ← g.acomplete (async_call model prompt response_text)
    content ← content_of completion
    async_grade_of content

  unfoldable pub run_llm_judge : Text → Text → Text → f.F × Text
  unfolding async_ask_judge
  run_llm_judge prompt response_text model = elim (async_ask_judge model prompt response_text) [
    | ok graded ↦ graded
    | raised error ↦
        (f.hundredths 500, codes "Judge evaluation fallback due to API state: " ++ error)
  ]
