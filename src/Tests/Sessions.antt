-- ===== src/Tests/Sessions.antt =====
-- memory/buffer.rs on a short session.
use wend_rag.Base.{ℕ, ◌≤◌, min, max, List, [], ◌∷◌, true, false, ◌≡◌, refl, length, map}
use wend_rag.Base.Int.{pos}
use wend_rag.Base.Text.{codes}
use wend_rag.Memory.Buffer.{SessionConfig, new, get_recent_messages, message_count}
use wend_rag.Memory.Buffer.History.{
  Call, add, slide, sum_up, run, added, add_at, IsEnd, get_recent_messages-run, message_count-run,
  run_unbounded,
}

abbrev config : SessionConfig
config = record {
  max_messages = 3;
  max_age_seconds = pos 60;
  enable_summarization = true;
  keep_recent_after_summary = 2;
}

abbrev calls : List (Call ℕ)
calls = add 1 10 ∷ add 2 20 ∷ add 3 30 ∷ add 4 40 ∷ slide ∷ add 5 50 ∷ sum_up (codes "tens") ∷ []

get_recent_messages-run_example :
    IsEnd (get_recent_messages 1 (run calls (new (codes "s") config 0))) (added calls)
    × (length (get_recent_messages 1 (run calls (new (codes "s") config 0)))
        ≡ min 1 (message_count (run calls (new (codes "s") config 0))))
get_recent_messages-run_example = get_recent_messages-run (codes "s") config 0 calls 1

message_count-run_example : message_count (run calls (new (codes "s") config 0)) ≤ max 3 2
message_count-run_example = message_count-run (codes "s") config 0 calls refl

abbrev unsummarized : SessionConfig
unsummarized = record {
  max_messages = 1;
  max_age_seconds = pos 60;
  enable_summarization = false;
  keep_recent_after_summary = 0;
}

run_unbounded_example :
    (run (map add_at ((1, 10) ∷ (2, 20) ∷ [])) (new (codes "s") unsummarized 0)).messages
    ≡ added {M = ℕ} (map add_at ((1, 10) ∷ (2, 20) ∷ []))
run_unbounded_example = run_unbounded (codes "s") unsummarized 0 ((1, 10) ∷ (2, 20) ∷ []) refl
