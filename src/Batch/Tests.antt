-- ===== src/Batch/Tests.antt =====
-- Partitions of concrete rows, and the theorem about them.
use yalia_sii.Prelude.{String, ◌≡◌, refl, Option, some, List, [], ◌∷◌, map, count, ◌==◌}
use yalia_sii.Json.{string_of, get}
use yalia_sii.Samples.{plain, invoice}
use yalia_sii.Payload.{PayloadRow}
use yalia_sii.Sweep.{RowWithConnection}
use yalia_sii.Batch.{
  Partition, payload_row, belongs, group_values_of, group_key_of, phase_of, add_to_partition,
  partition,
}
use yalia_sii.Batch.Complete.{rows_in, Uniform, Apart, partition_complete}

abbrev waiting : String → String → Option String → String → RowWithConnection
waiting id conn group status = record {
  id = id;
  fields = invoice "1" "1" "x";
  connection_id = conn;
  group_id = group;
  submission_status = some status;
}

abbrev swept : List RowWithConnection
swept =
    waiting "a" "c1" (some "g") "queued"
    ∷ waiting "b" "c2" (some "g") "queued"
    ∷ waiting "c" "c1" (some "g") "queued"
    ∷ waiting "d" "c1" (some "g") "revisado"
    ∷ []

ids_in : List Partition → List (List String)
ids_in [] = []
ids_in (p ∷ ps) = map (λ (r : PayloadRow). r.id) p.rows ∷ ids_in ps

partition_run :
    ids_in (partition plain ("nif" ∷ []) swept []) ≡ ("a" ∷ "c" ∷ []) ∷ ("b" ∷ []) ∷ ("d" ∷ []) ∷ []
unfolding ids_in partition add_to_partition belongs group_key_of group_values_of phase_of string_of
    get
partition_run = refl

partition_complete_example :
    (count (λ x. x.id == "c") (rows_in (partition plain ("nif" ∷ []) swept []))
      ≡ count (λ x. x.id == "c") (map (payload_row plain) swept))
    × Uniform plain ("nif" ∷ []) swept (partition plain ("nif" ∷ []) swept [])
    × Apart plain ("nif" ∷ []) (partition plain ("nif" ∷ []) swept [])
partition_complete_example = partition_complete plain ("nif" ∷ []) (λ x. x.id == "c") swept
