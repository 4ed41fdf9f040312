-- ===== src/Verifier/Scorer.antt =====
-- The scoring by a language model, verifier-service/src/scorer.rs.
use near_escrow.Shared.Tests.{ℕ, ◌%◌, Bool, leb, unwrap_or, u8_mod, ◌++◌}
use Prim.Native.Nat.{min}
use near_escrow.Shared.Outcome.{ok, expect, ◌>>=◌}
use near_escrow.Text.Bytes.{Text, ascii}
use near_escrow.Verifier.Config.{Config}
use near_escrow.Verifier.Host.{World, Try, error}

pub record Verdict : Type 0 where
  pub score : ℕ  -- u8
  pub passed : Bool
  pub detail : Text

unfoldable pub prompt_of : Text → Text → Text → Text
prompt_of task criteria submission =
    ascii "You are an escrow verifier. Score the worker's submission.\n\nTASK: "
    ++ task
    ++ ascii "\n\nCRITERIA: "
    ++ criteria
    ++ ascii "\n\nWORKER SUBMISSION:\n"
    ++ submission
    ++ ascii "\n\nScore from 0-100. Be strict but fair.\n"
    ++ ascii
        "Respond with ONLY valid JSON: {\"score\": <0-100>, \"detail\": \"<brief explanation>\"}\n"
    ++ ascii "Do NOT include any other text."

-- The score is cut to a byte, compared with the threshold, and only then capped at 100.
unfoldable pub verdict_of_score : Config → ℕ → Text → Verdict
verdict_of_score config n detail =
    let score = n % u8_mod in
    record { score = min score 100; passed = leb config.score_threshold score; detail = detail }

unfoldable pub score : World → Config → Text → Text → Text → Try Verdict
score w config task criteria submission = do
  content ← expect (w.ask_model (prompt_of task criteria submission)) error
  parsed ← expect (w.parse_scored content) error
  n ← expect parsed.score error
  ok (verdict_of_score config n (unwrap_or parsed.detail (ascii "No detail provided")))
