-- ===== src/Models/Document.antt =====
-- models/document_context.go and the context settings of models/agent.go: retrieved chunks,
-- context results and multi-pass settings. `metadata` is a decoded JSON object.
use tas_agent_builder.Base.{ℕ, Bool, Str, Option, List, ℤ}
use tas_agent_builder.Floats.{Float}
use tas_agent_builder.Json.{Fields}

pub record RetrievedChunk : Type 0 where
  pub id : Str
  pub document_id : Str
  pub document_name : Str
  pub notebook_id : Str
  pub content : Str
  pub chunk_number : ℤ
  pub total_chunks : ℤ
  pub score : Float
  pub distance : Float
  pub metadata : Option Fields
  pub content_type : Str
  pub language : Str
  pub page_number : Option ℤ

-- The constants of `ContextStrategy`, and any other string that a request holds.
pub data ContextStrategy : Type 0 where
  vector full hybrid mcp off : ContextStrategy
  other_strategy : Str → ContextStrategy

pub record DocumentContextResult : Type 0 where
  pub chunks : List RetrievedChunk
  pub total_tokens : ℤ
  pub truncated_chunks : ℤ
  pub strategy : ContextStrategy
  pub retrieval_time_ms : ℤ
  pub metadata : Option Fields

pub record ContextInjectionResult : Type 0 where
  pub formatted_context : Str
  pub chunk_count : ℤ
  pub document_count : ℤ
  pub total_tokens : ℤ
  pub strategy : ContextStrategy
  pub truncated : Bool
  pub metadata : Option Fields

pub record MultiPassConfig : Type 0 where
  pub enabled : Bool
  pub segment_size : ℤ
  pub overlap_tokens : ℤ
  pub max_passes : ℤ
  pub aggregation_prompt : Str

pub record SegmentResult : Type 0 where
  pub segment_number : ℤ
  pub content : Str
  pub partial_result : Str
  pub tokens_used : ℤ
  pub processing_time_ms : ℤ

pub record MultiPassResult : Type 0 where
  pub segments : List SegmentResult
  pub aggregated_result : Str
  pub total_passes : ℤ
  pub total_tokens : ℤ
  pub processing_time_ms : ℤ

pub record SearchOptions : Type 0 where
  pub top_k : ℤ
  pub min_score : Float
  pub max_tokens : ℤ
  pub include_chunks : Bool
  pub filters : Option Fields

pub record VectorSearchRequest : Type 0 where
  pub query_text : Str
  pub dataset_id : Str
  pub notebook_ids : List ℕ
  pub document_ids : List ℕ
  pub tenant_id : Str
  pub space_id : Str
  pub options : SearchOptions
  pub auth_token : Str

pub record ChunkRetrievalRequest : Type 0 where
  pub tenant_id : Str
  pub file_ids : List ℕ
  pub notebook_ids : List ℕ
  pub chunk_types : List Str
  pub limit : ℤ
  pub offset : ℤ
  pub order_by : Str
  pub auth_token : Str
