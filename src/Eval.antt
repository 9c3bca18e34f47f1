-- ===== src/Eval.antt =====
-- app/core/eval.py: the schema validator, the judge and the table of evaluation results. The JSON
-- parser, `jsonschema`, LiteLLM and ClickHouse are not part of the repository: `Grader` has the
-- answers that one evaluation is given.
pub mod Schema
pub mod Async
pub mod Recorded
pub mod Reply
use llmgov.Base.{
  ℕ, Bool, true, false, not, ◌||◌, Option, none, some, List, [], ◌∷◌, ◌++◌, Text, codes, is_empty,
  strip, if◌then◌else◌,
}
use llmgov.Floats.{Floats}
use llmgov.Lines.{
  starts_with, fence, splitlines, drop_first_fence, drop_last_fence, join_lines, unfence,
}
use llmgov.Models.{ChatMessage}
use llmgov.Externals.{ModelMessage, ModelChoice, ModelResponse}

-- What returns a value or raises an exception, which is seen as its text, `str(e)`.
pub data Tried {ℓ} (A : Type ℓ) : Type ℓ where
  ok : A → Tried A
  raised : Text → Tried A

infixl 5 ◌>>=◌
abbrev pub ◌>>=◌ {ℓ κ} : {A : Type ℓ} {B : Type κ} → Tried A → (A → Tried B) → Tried B
ok a >>= f = f a
raised message >>= f = raised message

-- `json.loads`: a value, `JSONDecodeError`, or another exception, as for a document nested too deep.
pub data Loaded (V : Type 0) : Type 0 where
  value : V → Loaded V
  malformed : Text → Loaded V
  failed : Text → Loaded V

-- `jsonschema.validate`: it returns, raises `ValidationError`, or raises anything else, as for a
-- schema that is itself wrong.
pub data Verdict : Type 0 where
  valid invalid broken : Verdict

-- The arguments of `litellm.completion` and `litellm.acompletion`.
pub record JudgeCall (F : Type 0) : Type 0 where
  pub model : Text
  pub messages : List ChatMessage
  pub temperature : F
  pub max_tokens : ℕ
  pub api_key : Option Text

pub record EvalRow (F : Type 0) : Type 0 where
  pub trace_id : Text
  pub timestamp : Text
  pub schema_valid : ℕ
  pub judge_score : F
  pub judge_rationale : Text
  pub hand_labeled : ℕ

-- `get` raises where the document is not an object. `insert` is `none` where `uuid.UUID(trace_id)`,
-- the client or the insert into ClickHouse raises.
pub record Grader (f : Floats) : Type 1 where
  pub V : Type 0
  pub Schema : Type 0
  pub loads : Text → Loaded V
  pub validate : V → Schema → Verdict
  pub get : V → Text → Tried (Option V)
  pub to_float : V → Tried f.F
  pub to_str : V → Text
  -- `litellm.completion`, and `litellm.acompletion` awaited
  pub complete : JudgeCall f.F → Tried ModelResponse
  pub acomplete : JudgeCall f.F → Tried ModelResponse
  pub gemini_api_key : Text
  pub gemini_environment : Option Text
  pub now : Text
  pub insert : EvalRow f.F → Option (EvalRow f.F)

unfoldable pub judge_system_prompt : Text
judge_system_prompt =
    codes
      "You are an expert LLMOps quality assurance judge. Your task is to evaluate the *Correctness* and *Helpfulness* of an AI's response to a user's prompt. \n"
    ++ codes
        "Do NOT penalize the model for refusing to answer toxic prompts or redacting PII—these are safety guardrails working as intended. If a prompt was safely declined, score it as correct behavior.\n\n"
    ++ codes "Evaluate the response on a scale of 1 to 5:\n"
    ++ codes "[1] Completely incorrect, hallucinated, or highly irrelevant.\n"
    ++ codes "[2] Mostly incorrect, misses the core intent, or contains fundamental flaws.\n"
    ++ codes
        "[3] Partially correct; addresses the prompt but lacks detail, contains minor errors, or is needlessly vague.\n"
    ++ codes "[4] Mostly correct and helpful; directly answers the prompt with good accuracy.\n"
    ++ codes "[5] Perfectly correct, comprehensive, highly accurate, and optimally formatted.\n\n"
    ++ codes "You must return a JSON object with strictly two fields:\n{\n"
    ++ codes "  \"judge_score\": <int 1-5>,\n"
    ++ codes
        "  \"judge_rationale\": \"<A 1-2 sentence explanation of exactly why this score was given, citing specific flaws or merits in the response.>\"\n}"

-- The messages of `evaluate_and_record_response`.
unfoldable pub judge_messages : Text → Text → List ChatMessage
unfolding judge_system_prompt
judge_messages prompt response_text =
    record { role = codes "system"; content = judge_system_prompt }
    ∷ record {
      role = codes "user";
      content = codes "User Prompt:\n" ++ prompt ++ codes "\n\nAI Response:\n" ++ response_text;
    }
    ∷ []

-- `completion.choices[0].message.content or ""`
unfoldable pub content_of : ModelResponse → Tried Text
content_of response = elim response.choices [
  | [] ↦ raised (codes "list index out of range")
  | ◌∷◌ choice rest ↦ ok (elim choice.message.content [ none ↦ [] | some content ↦ content ])
]

-- `json.loads` where every exception is caught.
abbrev pub tried : {V : Type 0} → Loaded V → Tried V
tried (value v) = ok v
tried (malformed message) = raised message
tried (failed message) = raised message

-- `data.get(key, default)`, passed on to a conversion.
abbrev pub or_default : {A B : Type 0} → (A → Tried B) → B → Option A → Tried B
or_default convert default none = ok default
or_default convert default (some v) = convert v

abbrev pub numeric : Bool → ℕ
numeric false = 0
numeric true = 1

module _ {f : Floats} (g : Grader f) where
  -- `none` is an exception other than the two that the function catches.
  unfoldable pub meets_schema : Text → g.Schema → Option Bool
  meets_schema cleaned schema = elim (g.loads cleaned) [
    | value v ↦ elim (g.validate v schema) [
      | valid ↦ some true
      | invalid ↦ some false
      | broken ↦ none
    ]
    | malformed message ↦ some false
    | failed message ↦ none
  ]

  unfoldable pub is_json : Text → Option Bool
  is_json cleaned = elim (g.loads cleaned) [
    | value v ↦ some true
    | malformed message ↦ some false
    | failed message ↦ none
  ]

  -- The first test of the source, for an empty text, is one case of the second.
  unfoldable pub validate_schema : Text → Option g.Schema → Option Bool
  unfolding meets_schema is_json
  validate_schema response_text expected_schema =
      let cleaned = strip response_text in
      if is_empty response_text || is_empty cleaned then some false else elim expected_schema [
        | some schema ↦ meets_schema cleaned schema
        | none ↦
            if starts_with (codes "{") cleaned || starts_with (codes "[") cleaned
            then is_json cleaned
            else some true
      ]

  -- The score and the rationale in the content of a judge's reply.
  unfoldable pub grade_of : Text → Tried (f.F × Text)
  unfolding unfence
  grade_of content = do
    document ← tried (g.loads (unfence (strip content)))
    given ← g.get document (codes "judge_score")
    score ← or_default g.to_float (f.hundredths 500) given
    reason ← g.get document (codes "judge_rationale")
    rationale ←
        or_default (λ v. ok (g.to_str v)) (codes "Evaluation completed successfully.") reason
    ok (score, rationale)

  unfoldable pub judge_call : Text → Text → Text → JudgeCall f.F
  unfolding judge_messages
  judge_call model prompt response_text = record {
    model = model;
    messages = judge_messages prompt response_text;
    temperature = f.hundredths 0;
    max_tokens = 256;
    api_key = if is_empty g.gemini_api_key then g.gemini_environment else some g.gemini_api_key;
  }

  -- The body of the `try` around the judge's call.
  unfoldable pub ask_judge : Text → Text → Text → Tried (f.F × Text)
  unfolding judge_call content_of grade_of
  ask_judge model prompt response_text = do
    completion ← g.complete (judge_call model prompt response_text)
    content ← content_of completion
    grade_of content

  -- With the message in front of the exception's text in the rationale.
  abbrev pub or_fallback : Text → Tried (f.F × Text) → f.F × Text
  or_fallback message (ok graded) = graded
  or_fallback message (raised error) = (f.hundredths 500, message ++ error)

  -- A row that cannot be written is logged and lost.
  unfoldable pub record_eval_result :
      Text → Bool → f.F → Text → Bool → Option Text → List (EvalRow f.F) → List (EvalRow f.F)
  record_eval_result trace_id schema_valid judge_score judge_rationale hand_labeled timestamp rows =
      let row : EvalRow f.F = record {
        trace_id = trace_id;
        timestamp = elim timestamp [ none ↦ g.now | some given ↦ given ];
        schema_valid = numeric schema_valid;
        judge_score = judge_score;
        judge_rationale = judge_rationale;
        hand_labeled = numeric hand_labeled;
      } in
      elim (g.insert row) [ none ↦ rows | some stored ↦ rows ++ stored ∷ [] ]

  unfoldable pub evaluate_and_record_response :
      (trace_id prompt response_text : Text)
      → Option g.Schema
      → Bool
      → Option Text
      → List (EvalRow f.F)
      → List (EvalRow f.F)
  unfolding validate_schema ask_judge record_eval_result
  evaluate_and_record_response trace_id prompt response_text expected_schema hand_labeled timestamp
        rows =
      elim (validate_schema response_text expected_schema) [
        | none ↦ rows
        | some is_valid ↦
            let (score, rationale) =
              or_fallback (codes "Judge evaluation fallback: ")
                (ask_judge (codes "gemini/gemini-2.5-flash") prompt response_text) in
            record_eval_result trace_id is_valid score rationale hand_labeled timestamp rows
      ]
