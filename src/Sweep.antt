-- ===== src/Sweep.antt =====
-- src/tables/write-sweep-query.util.ts: which rows a sweep takes out of the table, and the chunks that
-- they are sent in. Rows of the same age keep the order in which the table holds them.
pub mod Capped
pub mod Whole
mod Tests
use Prim.Native.String.{compare}
use Prim.Native.Nat.{Ordering}
use yalia_sii.Prelude.{
  ℕ, zero, suc, ◌+◌, min, String, Bool, true, false, not, ◌&&◌, ◌||◌, Option, none, some, List, [],
  ◌∷◌, map, ◌==◌, ◌=ℕ◌, ltb, leb, if◌then◌else◌, is_text, is_some, is_empty, has, keep, count,
}
use yalia_sii.Json.{Object}
use yalia_sii.Rules.{or_value}
use yalia_sii.Rows.{TableRow, is_correcto, is_queued, has_id}

pub record RowWithConnection : Type 0 where
  pub id : String
  pub fields : Object
  pub connection_id : String
  pub group_id : Option String
  pub submission_status : Option String

unfoldable pub to_row_with_connection : TableRow → RowWithConnection
to_row_with_connection r = record {
  id = r.id;
  fields = r.row_data;
  connection_id = r.connection_id;
  group_id = r.group_id;
  submission_status = r.submission_status;
}

-- `table_key = …`, and `connection_id = …` where a connection is given.
abbrev pub in_scope : String → String → TableRow → Bool
in_scope key conn r = r.table_key == key && (conn == "" || r.connection_id == conn)

-- `ORDER BY created_at`
insert_by_age : TableRow → List TableRow → List TableRow
insert_by_age r [] = r ∷ []
insert_by_age r (s ∷ rows) =
    if ltb s.created_at r.created_at then s ∷ insert_by_age r rows else r ∷ s ∷ rows

unfoldable pub by_age : List TableRow → List TableRow
unfolding insert_by_age
by_age [] = []
by_age (r ∷ rows) = insert_by_age r (by_age rows)

-- `submission_status IS NOT NULL`, not accepted, and not held back for its load.
unfoldable pub is_sendable : Option String → Bool
is_sendable s = is_some s && not (is_correcto s) && not (is_text s "staged")

unfoldable pub fetch_rows_by_ids :
    String → List String → String → List TableRow → List RowWithConnection
unfolding by_age
fetch_rows_by_ids key ids conn rows =
    if is_empty ids
    then []
    else map to_row_with_connection (
        by_age
          (keep (λ r. in_scope key conn r && has_id ids r && is_sendable r.submission_status) rows))

-- `group_id = ANY(groupIds)`
abbrev pub in_groups : List String → TableRow → Bool
in_groups groups r = elim r.group_id [ none ↦ false | some g ↦ has g groups ]

unfoldable pub fetch_rows_by_group_ids :
    String → List String → String → List TableRow → List RowWithConnection
unfolding by_age
fetch_rows_by_group_ids key groups conn rows =
    if is_empty groups
    then []
    else map to_row_with_connection (
        by_age (
          keep (λ r. in_scope key conn r && in_groups groups r && is_sendable r.submission_status)
            rows))

unfoldable pub fetch_group_members :
    String → String → String → List TableRow → List RowWithConnection
unfolding by_age
fetch_group_members key conn group rows =
    map to_row_with_connection
      (by_age (keep (λ r. in_scope key conn r && is_text r.group_id group) rows))

-- `coalesce(group_id, id::text)`
unfoldable pub grp : TableRow → String
grp r = or_value r.group_id r.id

-- One row of `SELECT grp, min(created_at), count(*) … GROUP BY grp`.
pub record Group : Type 0 where
  pub name : String
  pub oldest : ℕ
  pub size : ℕ

abbrev names : List Group → List String
names gs = map (λ g. g.name) gs

abbrev pub oldest_in : String → ℕ → List TableRow → ℕ
oldest_in g m [] = m
oldest_in g m (r ∷ rows) = oldest_in g (if grp r == g then min m r.created_at else m) rows

-- The groups of `rest`, a part of the candidates `all_rows`, in which their sizes are counted.
unfoldable pub groups_of : List TableRow → List TableRow → List Group
unfolding grp
groups_of all_rows [] = []
groups_of all_rows (r ∷ rest) =
    let gs = groups_of all_rows rest in
    if has (grp r) (names gs)
    then gs
    else record {
      name = grp r;
      oldest = oldest_in (grp r) r.created_at all_rows;
      size = count (λ s. grp r == grp s) all_rows;
    }
      ∷ gs

-- `ORDER BY grp_min, grp`
abbrev pub ranks_before : Group → Group → Bool
ranks_before g h =
    ltb g.oldest h.oldest
    || g.oldest =ℕ h.oldest && elim (compare g.name h.name) [ Ordering.lt ↦ true | _ ↦ false ]

insert_by_rank : Group → List Group → List Group
insert_by_rank g [] = g ∷ []
insert_by_rank g (h ∷ gs) = if ranks_before h g then h ∷ insert_by_rank g gs else g ∷ h ∷ gs

unfoldable pub rank : List Group → List Group
unfolding insert_by_rank
rank [] = []
rank (g ∷ gs) = insert_by_rank g (rank gs)

-- `cum <= limit`, with the sum of the sizes so far.
unfoldable pub within : ℕ → ℕ → List Group → List String
within limit cum [] = []
within limit cum (g ∷ gs) =
    let rest = within limit (cum + g.size) gs in
    if leb (cum + g.size) limit then g.name ∷ rest else rest

-- `cum <= limit OR rn = 1`
unfoldable pub choose : ℕ → List Group → List String
unfolding within
choose limit [] = []
choose limit (g ∷ gs) = g.name ∷ within limit g.size gs

unfoldable pub candidates : String → String → List TableRow → List TableRow
candidates key conn rows = keep (λ r. in_scope key conn r && is_queued r.submission_status) rows

unfoldable pub fetch_queued_rows_capped :
    String → ℕ → String → List TableRow → List RowWithConnection
unfolding by_age candidates groups_of rank choose
fetch_queued_rows_capped key limit conn rows =
    let candidate = candidates key conn rows in
    let chosen = choose limit (rank (groups_of candidate candidate)) in
    map to_row_with_connection (by_age (keep (λ r. has (grp r) chosen) candidate))
