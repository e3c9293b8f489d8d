-- ===== src/Tests/Scans.antt =====
-- A table of three pages, of which the second has no match.
use deploy_gateway.Base.{
  ℕ, suc, ◌*◌, ◌≤◌, ◌==◌, ◌≡◌, refl, Bool, true, ◌&&◌, Option, none, some, List, [], ◌∷◌, ◌++◌, ok,
  arith, ltb,
}
use deploy_gateway.Store.{second, Operation, is_running, succeeded}
use deploy_gateway.Manager.Start.{started_operation}
use deploy_gateway.Store.Dynamo.{
  Filter, by_operation_id, running_before, no_filter, Table, find_operation,
  list_running_past_deadline,
}
use deploy_gateway.Store.Dynamo.Pages.{
  select, oks, Paged, unique, find_operation-unique, list_running_past_deadline-whole,
}
use deploy_gateway.Tests.Lab.{running_op}

abbrev done_op : Operation
done_op = record running_op { operation_id = "op_a0"; status = succeeded }

data PageKey : Type 0 where
  middle end : PageKey

abbrev page_of : Option PageKey → List Operation
page_of none = done_op ∷ []
page_of (some middle) = []
page_of (some end) = running_op ∷ []

abbrev next_of : Option PageKey → Option PageKey
next_of none = some middle
next_of (some middle) = some end
next_of (some end) = none

abbrev rest_of : Option PageKey → List Operation
rest_of none = done_op ∷ running_op ∷ []
rest_of (some k) = running_op ∷ []

abbrev pages_of : Option PageKey → ℕ
pages_of none = 2
pages_of (some middle) = 1
pages_of (some end) = 0

abbrev passes_filter : Filter → Operation → Bool
passes_filter (by_operation_id id) op = op.operation_id == id
passes_filter (running_before t) op = is_running op.status && ltb op.requested_at t
passes_filter no_filter op = true

abbrev table : Table
table = record {
  is_print = λ n. true;
  State = Unit {0};
  StartKey = PageKey;
  put_item = λ op s. (none, s);
  update_item = λ input s. (none, s);
  scan = λ f start s. (ok (oks (select (passes_filter f) (page_of start)), next_of start), s);
}

table_last : (start : Option PageKey) → next_of start ≡ none → rest_of start ≡ page_of start
table_last none e = cc
table_last (some middle) e = cc
table_last (some end) e = refl

table_more :
    (start : Option PageKey) {k : PageKey}
    → next_of start ≡ some k
    → rest_of start ≡ page_of start ++ rest_of (some k)
table_more none e = refl
table_more (some middle) e = refl
table_more (some end) e = cc

table_fewer :
    (start : Option PageKey) {k : PageKey}
    → next_of start ≡ some k
    → suc (pages_of (some k)) ≤ pages_of start
table_fewer none {k} e = step k e
  where
    step : (k : PageKey) → some middle ≡ some k → suc (pages_of (some k)) ≤ 2
    step middle e = omega arith
    step end e = omega arith
table_fewer (some middle) {k} e = step k e
  where
    step : (k : PageKey) → some end ≡ some k → suc (pages_of (some k)) ≤ 1
    step middle e = cc
    step end e = omega arith
table_fewer (some end) e = cc

abbrev table-Paged : Paged table tt
table-Paged = record {
  matching = passes_filter;
  page = page_of;
  next = next_of;
  rest = rest_of;
  pages = pages_of;
  scan-page = λ f start. refl;
  rest_last = table_last;
  rest_more = table_more;
  fewer = table_fewer;
}

find_operation_behind : (find_operation table 3 "op_a1" tt).0 ≡ some (ok running_op)
unfolding find_operation started_operation select
find_operation_behind = refl

find_operation-unique_example : find_operation table 3 "op_a1" tt ≡ (
  some (
      unique table.is_print "op_a1"
        (select (passes_filter (by_operation_id "op_a1")) (rest_of none))),
  tt,
)
find_operation-unique_example = find_operation-unique table tt table-Paged 2 "op_a1" (omega arith)

list_running_past_deadline-whole_example :
    list_running_past_deadline table 3 (20 * second) tt
    ≡ (some (ok (select (passes_filter (running_before (20 * second))) (rest_of none))), tt)
list_running_past_deadline-whole_example =
    list_running_past_deadline-whole table tt table-Paged 2 (20 * second) (omega arith)
