-- ===== src/Memory/Types.antt =====
-- memory/types.rs: the data of the memory layer. JSON values, identifiers and embeddings are those
-- of libraries, and parameters; an instant is a number of nanoseconds. A constructor that the
-- source calls with the clock or a random identifier takes them as arguments.
use wend_rag.Base.{ℕ, List, Option, none, some}
use wend_rag.Base.Int.{ℤ}
use wend_rag.Base.Text.{Text, codes}

pub data MemoryScope : Type 0 where
  session user global : MemoryScope

pub data MemoryType : Type 0 where
  fact preference event summary message : MemoryType

pub data MessageRole : Type 0 where
  from_user assistant system : MessageRole

unfoldable pub scope_as_str : MemoryScope → Text
scope_as_str session = codes "session"
scope_as_str user = codes "user"
scope_as_str global = codes "global"

unfoldable pub type_as_str : MemoryType → Text
type_as_str fact = codes "fact"
type_as_str preference = codes "preference"
type_as_str event = codes "event"
type_as_str summary = codes "summary"
type_as_str message = codes "message"

unfoldable pub role_as_str : MessageRole → Text
role_as_str from_user = codes "user"
role_as_str assistant = codes "assistant"
role_as_str system = codes "system"

-- `Json` is `serde_json::Value`, `Id` here `Uuid`, `F` an `f32`.
module _ (Json Uuid F : Type 0) where
  pub record MemoryMetadata : Type 0 where
    pub entry_type : MemoryType
    pub source : Text
    pub ttl_seconds : Option ℤ
    pub consolidation_target : Option Uuid
    pub extra : Json

  pub record MemoryEntry : Type 0 where
    pub id : Uuid
    pub scope : MemoryScope
    pub session_id : Option Text
    pub user_id : Option Text
    pub content : Text
    pub importance_score : F
    pub created_at : ℕ
    pub last_accessed : ℕ
    pub access_count : ℕ
    pub embedding : Option (List F)
    pub metadata : MemoryMetadata

  pub record ChatMessage : Type 0 where
    pub role : MessageRole
    pub content : Text
    pub timestamp : ℕ
    pub metadata : Option Json

  pub record MemoryQuery : Type 0 where
    pub scope : Option MemoryScope
    pub session_id : Option Text
    pub user_id : Option Text
    pub text : Option Text
    pub embedding : Option (List F)
    pub limit : ℕ
    pub min_importance : Option F
    pub entry_type : Option MemoryType

module _ {Json Uuid F : Type 0} where
  -- `Default`, where `empty` is the empty JSON object
  unfoldable pub default_metadata : Json → MemoryMetadata Json Uuid F
  default_metadata empty = record {
    entry_type = fact;
    source = codes "memory_system";
    ttl_seconds = none;
    consolidation_target = none;
    extra = empty;
  }

  -- `half` is the number 0.5
  unfoldable pub new_entry :
      (empty : Json) (half : F) (id : Uuid) (now : ℕ)
      → MemoryScope
      → Option Text
      → Option Text
      → Text
      → MemoryType
      → MemoryEntry Json Uuid F
  unfolding default_metadata
  new_entry empty half id now scope session_id user_id content entry_type = record {
    id = id;
    scope = scope;
    session_id = session_id;
    user_id = user_id;
    content = content;
    importance_score = half;
    created_at = now;
    last_accessed = now;
    access_count = 0;
    embedding = none;
    metadata = record (default_metadata empty) { entry_type = entry_type };
  }

  unfoldable pub new_message : ℕ → MessageRole → Text → ChatMessage Json Uuid F
  new_message now role content = record {
    role = role;
    content = content;
    timestamp = now;
    metadata = none;
  }

  unfoldable pub user_message : ℕ → Text → ChatMessage Json Uuid F
  unfolding new_message
  user_message now content = new_message now from_user content

  unfoldable pub assistant_message : ℕ → Text → ChatMessage Json Uuid F
  unfolding new_message
  assistant_message now content = new_message now assistant content

  unfoldable pub new_query : MemoryQuery Json Uuid F
  new_query = record {
    scope = none;
    session_id = none;
    user_id = none;
    text = none;
    embedding = none;
    limit = 10;
    min_importance = none;
    entry_type = none;
  }

  unfoldable pub set_scope : MemoryScope → MemoryQuery Json Uuid F → MemoryQuery Json Uuid F
  set_scope scope q = record q { scope = some scope }

  unfoldable pub set_session_id : Text → MemoryQuery Json Uuid F → MemoryQuery Json Uuid F
  set_session_id session_id q = record q { session_id = some session_id }

  unfoldable pub set_user_id : Text → MemoryQuery Json Uuid F → MemoryQuery Json Uuid F
  set_user_id user_id q = record q { user_id = some user_id }

  unfoldable pub with_text : Text → MemoryQuery Json Uuid F → MemoryQuery Json Uuid F
  with_text text q = record q { text = some text }

  unfoldable pub with_embedding : List F → MemoryQuery Json Uuid F → MemoryQuery Json Uuid F
  with_embedding embedding q = record q { embedding = some embedding }

  unfoldable pub set_limit : ℕ → MemoryQuery Json Uuid F → MemoryQuery Json Uuid F
  set_limit limit q = record q { limit = limit }

  unfoldable pub for_user : Text → MemoryQuery Json Uuid F → MemoryQuery Json Uuid F
  for_user user_id q = record q { user_id = some user_id }
