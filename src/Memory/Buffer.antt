-- ===== src/Memory/Buffer.antt =====
-- memory/buffer.rs: the messages of one session. A method that reads the clock takes the time as
-- `now`; a message is of any type, since the buffer does not look into it.
pub mod History
use wend_rag.Base.{
  ℕ, ◌+◌, ◌^◌, List, [], ◌∷◌, ◌++◌, Option, none, some, Bool, ◌&&◌, ltb, if◌then◌else◌, length,
  take, reverse,
}
use wend_rag.Base.Int.{ℤ, sub_div, ltb_ℤ}
use wend_rag.Base.Text.{Text}

pub record SessionConfig : Type 0 where
  pub max_messages : ℕ
  pub max_age_seconds : ℤ
  pub enable_summarization : Bool
  pub keep_recent_after_summary : ℕ

pub record SessionContext : Type 0 where
  pub session_id : Text
  pub created_at : ℕ
  pub last_active : ℕ
  pub message_count : ℕ
  pub summary : Option Text

module _ (M : Type 0) where
  pub record SessionBuffer : Type 0 where
    pub session_id : Text
    pub config : SessionConfig
    pub messages : List M
    pub created_at : ℕ
    pub last_active : ℕ
    pub summary : Option Text

  pub record SessionContextWindow : Type 0 where
    pub summary : Option Text
    pub recent_messages : List M

module _ {M : Type 0} where
  unfoldable pub new : Text → SessionConfig → ℕ → SessionBuffer M
  new session_id config now = record {
    session_id = session_id;
    config = config;
    messages = [];
    created_at = now;
    last_active = now;
    summary = none;
  }

  -- `while messages.len() > keep { messages.pop_front(); }`
  unfoldable pub pop_while : ℕ → List M → List M
  pop_while keep [] = []
  pop_while keep (m ∷ ms) =
      let rest = pop_while keep ms in if ltb keep (length (m ∷ ms)) then rest else m ∷ ms

  unfoldable pub trim_old_messages : SessionBuffer M → SessionBuffer M
  unfolding pop_while
  trim_old_messages b = record b {
    messages = pop_while b.config.keep_recent_after_summary b.messages;
  }

  unfoldable pub apply_sliding_window : SessionBuffer M → SessionBuffer M
  unfolding pop_while
  apply_sliding_window b = record b { messages = pop_while b.config.max_messages b.messages }

  unfoldable pub add_message : ℕ → M → SessionBuffer M → SessionBuffer M
  unfolding trim_old_messages
  add_message now message b =
      let pushed = record b { messages = b.messages ++ message ∷ []; last_active = now } in
      if ltb b.config.max_messages (length pushed.messages) && b.config.enable_summarization
      then trim_old_messages pushed
      else pushed

  -- `iter().rev().take(count).rev()`
  unfoldable pub get_recent_messages : ℕ → SessionBuffer M → List M
  get_recent_messages count b = reverse (take count (reverse b.messages))

  unfoldable pub message_count : SessionBuffer M → ℕ
  message_count b = length b.messages

  -- `signed_duration_since(..).num_seconds()`, which rounds towards zero, against an `i64`
  unfoldable pub is_expired : ℕ → ℤ → SessionBuffer M → Bool
  is_expired now timeout_seconds b = ltb_ℤ timeout_seconds (sub_div now b.last_active (10 ^ 9))

  unfoldable pub get_context : SessionBuffer M → SessionContext
  get_context b = record {
    session_id = b.session_id;
    created_at = b.created_at;
    last_active = b.last_active;
    message_count = length b.messages;
    summary = b.summary;
  }

  unfoldable pub summarize : Text → SessionBuffer M → SessionBuffer M
  unfolding trim_old_messages
  summarize summary_text b = trim_old_messages (record b { summary = some summary_text })

  unfoldable pub get_context_window : SessionBuffer M → SessionContextWindow M
  unfolding get_recent_messages
  get_context_window b = record {
    summary = b.summary;
    recent_messages = get_recent_messages b.config.keep_recent_after_summary b;
  }
