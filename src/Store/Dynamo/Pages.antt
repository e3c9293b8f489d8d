-- ===== src/Store/Dynamo/Pages.antt =====
-- A scan over pages finds what the whole table holds.
use mathlib.Core.List.{append_assoc, append-nil}
use deploy_gateway.Base.{
  ℕ, zero, suc, ◌≤◌, String, ◌<>◌, ◌≡◌, refl, sym, ap, ◌∙◌, inl, inr, ◌⊎◌, Bool, Option, none, some,
  List, [], ◌∷◌, ◌++◌, map, Result, ok, err, new_error, arith, if◌then◌else◌,
}
use deploy_gateway.Base.Text.{quote}
use deploy_gateway.Store.{Time, Operation}
use deploy_gateway.Store.InMemory.{err_not_found}
use deploy_gateway.Store.Dynamo.{
  Filter, by_operation_id, running_before, Table, take_items, append_items, found_or_not,
  after_page, scanned, find_from, find_operation, after_list_page, listed, list_from,
  list_running_past_deadline,
}

unfoldable pub select : (Operation → Bool) → List Operation → List Operation
select p [] = []
select p (op ∷ ops) = let rest = select p ops in if p op then op ∷ rest else rest

select-append :
    (p : Operation → Bool) (xs ys : List Operation)
    → select p (xs ++ ys) ≡ select p xs ++ select p ys
unfolding select
select-append p [] ys = refl
select-append p (x ∷ xs) ys = ground (arith, select-append p xs ys)

abbrev pub oks : List Operation → List (Result Operation)
oks ops = map ok ops

-- A table whose scans go through the pages of a list of operations, each page filtered on its own, so
-- that a page may be empty and not the last; reading changes nothing.
pub record Paged (T : Table) (s : T.State) : Type 0 where
  pub matching : Filter → Operation → Bool
  pub page : Option T.StartKey → List Operation
  pub next : Option T.StartKey → Option T.StartKey
  pub rest : Option T.StartKey → List Operation
  pub pages : Option T.StartKey → ℕ
  pub scan-page :
      (f : Filter) (start : Option T.StartKey)
      → T.scan f start s ≡ (ok (oks (select (matching f) (page start)), next start), s)
  pub rest_last : (start : Option T.StartKey) → next start ≡ none → rest start ≡ page start
  pub rest_more :
      (start : Option T.StartKey) {k : T.StartKey}
      → next start ≡ some k
      → rest start ≡ page start ++ rest (some k)
  pub fewer :
      (start : Option T.StartKey) {k : T.StartKey}
      → next start ≡ some k
      → suc (pages (some k)) ≤ pages start

-- What `findOperation` answers for the matches of the whole table.
abbrev pub unique : (ℕ → Bool) → String → List Operation → Result Operation
unique is_print id [] = err err_not_found
unique is_print id (op ∷ []) = ok op
unique is_print id (op ∷ x ∷ ops) =
    err (new_error ("scan by operation_id: duplicate operation_id " <> quote is_print id))

abbrev with_found : Option Operation → List Operation → List Operation
with_found none ops = ops
with_found (some op) ops = op ∷ ops

-- A page either ends the search, or leaves at most one match.
take_items_lem :
    (is_print : ℕ → Bool) (id : String) (found : Option Operation) (ops more : List Operation)
    → ((o : Option Operation) × (take_items is_print id found (oks ops) ≡ ok o)
        × (with_found o more ≡ with_found found (ops ++ more)))
      ⊎ ((take_items is_print id found (oks ops)
            ≡ err
                (new_error ("scan by operation_id: duplicate operation_id " <> quote is_print id)))
          × (unique is_print id (with_found found (ops ++ more))
              ≡ err (
                  new_error
                    ("scan by operation_id: duplicate operation_id " <> quote is_print id))))
unfolding take_items
take_items_lem is_print id found [] more = inl (found, refl, refl)
take_items_lem is_print id none (op ∷ ops) more = take_items_lem is_print id (some op) ops more
take_items_lem is_print id (some x) (op ∷ ops) more = inr (refl, refl)

found_or_not_lem :
    (is_print : ℕ → Bool) (id : String) (o : Option Operation)
    → found_or_not o ≡ unique is_print id (with_found o [])
unfolding found_or_not
found_or_not_lem is_print id none = refl
found_or_not_lem is_print id (some op) = refl

module _ (T : Table) (s : T.State) where
  abbrev Next : Type 0
  Next = Option Operation → Option T.StartKey → T.State → Option (Result Operation) × T.State

  -- The last page.
  after_page-last :
      (id : String) (found : Option Operation) (ops : List Operation) (next : Next)
      → after_page T next (take_items T.is_print id found (oks ops)) none s
        ≡ (some (unique T.is_print id (with_found found ops)), s)
  unfolding after_page
  after_page-last id found ops next = elim (take_items_lem T.is_print id found ops []) [
    | inl (o, e, w) ↦ rw e (
        ap (λ (r : Result Operation). (some r, s))
          (found_or_not_lem T.is_print id o
            ∙ ap (λ xs. unique T.is_print id xs)
                (w ∙ ap (λ xs. with_found found xs) (append-nil ops))))
    | inr (e, u) ↦ rw e (
        ap (λ (r : Result Operation). (some r, s))
          (sym u ∙ ap (λ xs. unique T.is_print id (with_found found xs)) (append-nil ops)))
  ]

  -- A page before the last, if the pages behind it answer as they should.
  after_page-more :
      (id : String) (found : Option Operation) (ops more : List Operation) (next : Next)
      (k : T.StartKey)
      → ((o : Option Operation)
          → next o (some k) s ≡ (some (unique T.is_print id (with_found o more)), s))
      → after_page T next (take_items T.is_print id found (oks ops)) (some k) s
        ≡ (some (unique T.is_print id (with_found found (ops ++ more))), s)
  unfolding after_page
  after_page-more id found ops more next k h = elim (take_items_lem T.is_print id found ops more) [
    | inl (o, e, w) ↦ rw e (h o ∙ ap (λ xs. (some (unique T.is_print id xs), s)) w)
    | inr (e, u) ↦ rw e (ap (λ (r : Result Operation). (some r, s)) (sym u))
  ]

  module _ (t : Paged T s) where
    abbrev matching_rest : String → Option T.StartKey → List Operation
    matching_rest id start = select (t.matching (by_operation_id id)) (t.rest start)

    -- A page, if the pages behind it answer as they should.
    page-rest :
        (id : String) (found : Option Operation) (start : Option T.StartKey) (next : Next)
        → ((k : T.StartKey)
            → t.next start ≡ some k
            → (o : Option Operation)
            → next o (some k) s
              ≡ (some (unique T.is_print id (with_found o (matching_rest id (some k)))), s))
        → (o : Option T.StartKey) → t.next start ≡ o
        → after_page T next
            (take_items T.is_print id found
              (oks (select (t.matching (by_operation_id id)) (t.page start))))
            o
            s
          ≡ (some (unique T.is_print id (with_found found (matching_rest id start))), s)
    page-rest id found start next h none e =
        rw (t.rest_last start e) (after_page-last id found _ next)
    page-rest id found start next h (some k) e =
        rw (t.rest_more start e, select-append)
          (after_page-more id found _ (matching_rest id (some k)) next k (h k e))

    find_from-rest :
        (fuel : ℕ) (id : String) (found : Option Operation) (start : Option T.StartKey)
        → t.pages start ≤ fuel
        → find_from T (suc fuel) id found start s
          ≡ (some (unique T.is_print id (with_found found (matching_rest id start))), s)
    unfolding find_from scanned
    find_from-rest zero id found start room = rw (t.scan-page (by_operation_id id) start) (
        page-rest id found start (find_from T zero id)
          (λ k e o. absurd (let f = t.fewer start e in omega arith)) (t.next start) refl)
    find_from-rest (suc n) id found start room = rw (t.scan-page (by_operation_id id) start) (
        page-rest id found start (find_from T (suc n) id)
          (λ k e o. find_from-rest n id o (some k) (let f = t.fewer start e in omega arith))
          (t.next start) refl)

    -- Over a table whose scans go through the pages of a list, with one pass more than there are pages,
    -- the search by id goes to the last page, however many are empty, and answers for the whole list:
    -- the operation if just one matches, ErrNotFound if none does, and an error if two do.
    pub find_operation-unique :
        (fuel : ℕ) (id : String)
        → t.pages none ≤ fuel
        → find_operation T (suc fuel) id s ≡ (
          some (unique T.is_print id (select (t.matching (by_operation_id id)) (t.rest none))),
          s,
        )
    unfolding find_operation
    find_operation-unique fuel id room = find_from-rest fuel id none none room

    append_items-oks : (ops xs : List Operation) → append_items ops (oks xs) ≡ ok (ops ++ xs)
    unfolding append_items
    append_items-oks ops [] = ap (λ (r : List Operation). ok r) (sym (append-nil ops))
    append_items-oks ops (x ∷ xs) =
        append_items-oks (ops ++ (x ∷ [])) xs
        ∙ ap (λ (r : List Operation). ok r) (append_assoc ops (x ∷ []) xs)

    abbrev overdue_rest : Time → Option T.StartKey → List Operation
    overdue_rest older_than start = select (t.matching (running_before older_than)) (t.rest start)

    list_page-rest :
        (older_than : Time) (ops : List Operation) (start : Option T.StartKey)
        (next : List Operation
          → Option T.StartKey
          → T.State
          → Option (Result (List Operation)) × T.State)
        → ((k : T.StartKey)
            → t.next start ≡ some k
            → (xs : List Operation)
            → next xs (some k) s ≡ (some (ok (xs ++ overdue_rest older_than (some k))), s))
        → (o : Option T.StartKey) → t.next start ≡ o
        → after_list_page T next
            (append_items ops
              (oks (select (t.matching (running_before older_than)) (t.page start))))
            o
            s
          ≡ (some (ok (ops ++ overdue_rest older_than start)), s)
    unfolding after_list_page
    list_page-rest older_than ops start next h none e =
        rw (append_items-oks, t.rest_last start e) refl
    list_page-rest older_than ops start next h (some k) e =
        rw (append_items-oks, t.rest_more start e, select-append, h k e, append_assoc) refl

    list_from-rest :
        (fuel : ℕ) (older_than : Time) (ops : List Operation) (start : Option T.StartKey)
        → t.pages start ≤ fuel
        → list_from T (suc fuel) older_than ops start s
          ≡ (some (ok (ops ++ overdue_rest older_than start)), s)
    unfolding list_from listed
    list_from-rest zero older_than ops start room =
        rw (t.scan-page (running_before older_than) start) (
          list_page-rest older_than ops start (list_from T zero older_than)
            (λ k e o. absurd (let f = t.fewer start e in omega arith)) (t.next start) refl)
    list_from-rest (suc n) older_than ops start room =
        rw (t.scan-page (running_before older_than) start) (
          list_page-rest older_than ops start (list_from T (suc n) older_than)
            (λ k e xs.
              list_from-rest n older_than xs (some k) (let f = t.fewer start e in omega arith))
            (t.next start) refl)

    -- Over a table whose scans go through the pages of a list, with one pass more than there are pages,
    -- the sweep's list has every operation of the whole table that the filter matches, in the table's
    -- order: a page that is empty, or full of operations that have ended, hides none behind it.
    pub list_running_past_deadline-whole :
        (fuel : ℕ) (older_than : Time)
        → t.pages none ≤ fuel
        → list_running_past_deadline T (suc fuel) older_than s
          ≡ (some (ok (overdue_rest older_than none)), s)
    unfolding list_running_past_deadline
    list_running_past_deadline-whole fuel older_than room =
        list_from-rest fuel older_than [] none room
