-- ===== src/Outbound.antt =====
-- What an outbound call reads and writes: the tables of the rows, the outbox and the run history
-- (src/outbox/domain-event.types.ts, src/tables/entities/table-write-run.entity.ts), and the gateway,
-- which stands for the network, the connections' store and the failures of the database.
use yalia_sii.Prelude.{ℕ, String, Bool, Option, List}
use yalia_sii.Json.{Json}
use yalia_sii.Rows.{TableRow}
use yalia_sii.Rules.{SendTarget}

pub data WriteStatus : Type 0 where
  sent error : WriteStatus

pub data Trigger : Type 0 where
  schedule manual : Trigger

-- `emitida.sent` or `emitida.error`, with its payload.
pub record DomainEvent : Type 0 where
  pub operation : String
  pub connection_id : String
  pub idempotency_key : String
  pub table_key : String
  pub connection_name : Option String
  pub trigger : Trigger
  pub group_values : Option (List (String × String))
  pub row_count : ℕ
  pub http_status : Option ℕ
  pub status : WriteStatus
  pub error_message : Option String
  pub row_ids : List String

pub record TableWriteRun : Type 0 where
  pub table_key : String
  pub connection_id : String
  pub connection_name : Option String
  pub trigger : Trigger
  pub status : WriteStatus
  pub batch_id : String
  pub group_values : Option (List (String × String))
  pub row_count : ℕ
  pub http_status : Option ℕ
  pub error_message : Option String
  pub payload_preview : Option Json
  pub response_body : Option Json

-- What a call came to: a response, or an error with its message and the response it carries.
pub data Answer : Type 0 where
  responded : ℕ → Option Json → Answer
  threw : String → Option Json → Answer

pub record Connection : Type 0 where
  pub name : String
  pub clave : Option String

pub record Call : Type 0 where
  pub connection_id : String
  pub target : SendTarget
  pub body : Json

-- The tables that a call writes, the calls made, and the steps taken outside so far.
pub record Db : Type 0 where
  pub rows : List TableRow
  pub outbox : List DomainEvent
  pub runs : List TableWriteRun
  pub calls : List Call
  pub drawn : ℕ
  pub step : ℕ

pub record Gateway : Type 0 where
  -- `resolveById`, none where the connection is not there.
  pub resolve : String → Option Connection
  pub send : ℕ → Call → Answer
  -- Whether the transaction of that step goes through, its error, and whether a run is kept.
  pub commits : ℕ → Bool
  pub failure : ℕ → String
  pub records : ℕ → Bool
  pub trim : String → String
  -- `s.toLowerCase().replace(/\s+/g, '-')`
  pub slug : String → String
  pub json_text : Option Json → String
  pub decimal : ℕ → String
