-- ===== src/Api/Tasks/Pages.antt =====
-- Following the cursors of ListTasks (internal/api/task_handler.go and List of
-- internal/repository/task_repository.go): List filters on the id and orders by the time of creation.
use claude_ops.Prelude.{
  ℕ, zero, suc, ◌≤◌, ◌<◌, String, ◌≡◌, refl, sym, ap, ◌∙◌, ◌⊎◌, inl, inr, Bool, true, false, not,
  ◌&&◌, ◌||◌, Option, some, List, [], ◌∷◌, map, keep, take, any, count, arith, str_eq, str_eq_self,
  eq_iff, ℤ, Bool-cases, Option-cases,
}
use claude_ops.Domain.Task.{Task}
use claude_ops.Repository.Tasks.{Tasks, stored, has_id, sort_by, older}
use claude_ops.Repository.Tasks.Sorted.{any-sort_by, any-take, any-keep, any_mono}
use claude_ops.Repository.Listing.{TaskFilter, IdOrder, list, matches}
use claude_ops.Api.Tasks.{
  TaskResponse, ListQuery, to_task_response, filter_of, last_id, list_tasks, follow,
}

abbrev item_has_id : String → TaskResponse → Bool
item_has_id x r = str_eq r.id x

any-responses :
    (x : String) (ts : Tasks)
    → any (item_has_id x) (map to_task_response (map stored ts)) ≡ any (has_id x) ts
any-responses x [] = refl
any-responses x (t ∷ ts) = ap (λ b. str_eq t.id x || b) (any-responses x ts)

count-lt :
    (p q : Task → Bool) (ts : Tasks)
    → ((t : Task) → p t ≡ true → q t ≡ true)
    → any (λ t. q t && not (p t)) ts ≡ true
    → count p ts < count q ts
count-lt p q [] sub h = cc
count-lt p q (t ∷ ts) sub h = elim (Bool-cases (q t && not (p t))) [
  | inl e ↦ ground (arith, count-le p q ts sub)
  | inr e ↦ ground (arith, sub t, count-lt p q ts sub)
]
  where
    count-le :
        (p q : Task → Bool) (ts : Tasks)
        → ((t : Task) → p t ≡ true → q t ≡ true)
        → count p ts ≤ count q ts
    count-le p q [] sub = omega arith
    count-le p q (t ∷ ts) sub = ground (arith, sub t, count-le p q ts sub)

last_id-any :
    (r : TaskResponse) (rs : List TaskResponse)
    → any (item_has_id (last_id (r ∷ rs))) (r ∷ rs) ≡ true
unfolding last_id
last_id-any r [] = ground (arith, str_eq_self r.id)
last_id-any r (s ∷ rest) = ground (arith, last_id-any s rest)

last_id-found :
    (items : List TaskResponse)
    → str_eq (last_id items) "" ≡ false
    → any (item_has_id (last_id items)) items ≡ true
unfolding last_id
last_id-found [] h = absurd (ground arith)
last_id-found (r ∷ rs) h = last_id-any r rs

any-some : (p : Task → Bool) (ts : Tasks) → any p ts ≡ true → (t : Task) × (p t ≡ true)
any-some p [] h = absurd (ground arith)
any-some p (t ∷ ts) h = elim (Bool-cases (p t)) [
  | inl e ↦ (t, e)
  | inr e ↦ any-some p ts (ground arith)
]

module _ (atoi : String → Option ℤ) (ids : IdOrder) where
  open ids use {lt, irreflexive, transitive}

  -- The rows that a query selects.
  abbrev pub selected : ListQuery → Task → Bool
  selected q = matches ids (filter_of atoi q)

  list-any :
      (f : TaskFilter) (x : String) (ts : Tasks)
      → any (item_has_id x) (map to_task_response (list ids f ts)) ≡ true
      → any (λ t. has_id x t && matches ids f t) ts ≡ true
  unfolding list
  list-any f x ts h =
      let rows : Tasks = sort_by (λ a b. older b a) (keep (matches ids f) ts) in
      let page = any-take _ (has_id x) rows (sym (any-responses x (take _ rows)) ∙ h) in
      sym (any-keep (matches ids f) (has_id x) ts)
      ∙ (sym (any-sort_by (λ a b. older b a) (has_id x) (keep (matches ids f) ts)) ∙ page)

  -- The row of the cursor of a page is selected by the query of the page.
  list_tasks-next :
      (q : ListQuery) (ts : Tasks)
      → str_eq (list_tasks atoi ids q ts).next_cursor "" ≡ false
      → any (λ t. has_id (list_tasks atoi ids q ts).next_cursor t && selected q t) ts ≡ true
  unfolding list_tasks
  list_tasks-next q ts h = list-any (filter_of atoi q) (last_id items) ts (last_id-found items h)
    where
      items : List TaskResponse
      items = map to_task_response (list ids (filter_of atoi q) ts)

  narrower :
      (q : ListQuery) (c : String) (t : Task)
      → str_eq c "" ≡ false
      → selected (record q { cursor = c }) t ≡ true
      → (str_eq q.cursor "" ≡ true) ⊎ (lt c q.cursor ≡ true)
      → selected q t ≡ true
  unfolding filter_of
  narrower q c t h s (inl e) = ground arith
  narrower q c t h s (inr e) = ground (arith, transitive t.id c q.cursor)

  -- The cursors of the pages fall.
  next_falls :
      (q : ListQuery) (ts : Tasks)
      → str_eq (list_tasks atoi ids q ts).next_cursor "" ≡ false
      → (str_eq q.cursor "" ≡ true) ⊎ (lt (list_tasks atoi ids q ts).next_cursor q.cursor ≡ true)
  unfolding filter_of
  next_falls q ts h =
      let c = (list_tasks atoi ids q ts).next_cursor in
      let (t, e) = any-some (λ t. has_id c t && selected q t) ts (list_tasks-next q ts h) in
      elim (Bool-cases (str_eq q.cursor "")) [
        | inl f ↦ inl f
        | inr f ↦ inr (ground (arith, eq_iff t.id c))
      ]

  fewer_selected :
      (q : ListQuery) (ts : Tasks)
      → (let c = (list_tasks atoi ids q ts).next_cursor in
          str_eq c "" ≡ false
          → count (selected (record q { cursor = c })) ts < count (selected q) ts)
  unfolding filter_of
  fewer_selected q ts h =
      let c = (list_tasks atoi ids q ts).next_cursor in
      let after : ListQuery = record q { cursor = c } in
      count-lt (selected after) (selected q) ts (λ t s. narrower q c t h s (next_falls q ts h))
        (any_mono (λ t. has_id c t && selected q t) (λ t. selected q t && not (selected after t)) ts
          (λ t e. ground (arith, eq_iff t.id c, irreflexive c)) (list_tasks-next q ts h))

  -- Following the cursors ends: with more requests than tasks that the query selects, the last page
  -- has no cursor.
  pub follow-total :
      (n : ℕ) (q : ListQuery) (ts : Tasks)
      → count (selected q) ts < n
      → (pages : List (List TaskResponse)) × (follow atoi ids n q ts ≡ some pages)
  unfolding follow
  follow-total zero q ts h = absurd (omega arith)
  follow-total (suc n) q ts h =
      let page = list_tasks atoi ids q ts in
      let after : ListQuery = record q { cursor = page.next_cursor } in
      elim (Bool-cases (str_eq page.next_cursor "")) [
        | inl e ↦ (page.items ∷ [], rw e refl)
        | inr e ↦
            let (more, f) = follow-total n after ts (omega (arith, fewer_selected q ts e)) in
            (page.items ∷ more, rw (e, f) refl)
      ]

  abbrev pub listed : String → List (List TaskResponse) → Bool
  listed x = any (any (item_has_id x))

  -- A page has only ids below its cursor.
  page_below :
      (q : ListQuery) (x : String) (ts : Tasks)
      → str_eq q.cursor "" ≡ false
      → lt x q.cursor ≡ false
      → any (item_has_id x) (list_tasks atoi ids q ts).items ≡ false
  unfolding list_tasks filter_of
  page_below q x ts h k = elim (Bool-cases (any (item_has_id x) (list_tasks atoi ids q ts).items)) [
    | inl e ↦
        let (t, f) =
          any-some (λ t. has_id x t && selected q t) ts (list-any (filter_of atoi q) x ts e) in
        absurd (ground (arith, eq_iff t.id x))
    | inr e ↦ e
  ]

  follow-some :
      (n : ℕ) (q : ListQuery) (ts : Tasks) (pages : List (List TaskResponse))
      → (let page = list_tasks atoi ids q ts in
          follow atoi ids (suc n) q ts ≡ some pages
          → ((str_eq page.next_cursor "" ≡ true) × (pages ≡ page.items ∷ []))
            ⊎ ((more : List (List TaskResponse)) × (str_eq page.next_cursor "" ≡ false)
                × (follow atoi ids n (record q { cursor = page.next_cursor }) ts ≡ some more)
                × (pages ≡ page.items ∷ more)))
  unfolding follow
  follow-some n q ts pages h =
      let page = list_tasks atoi ids q ts in
      let after : ListQuery = record q { cursor = page.next_cursor } in
      elim (Bool-cases (str_eq page.next_cursor "")) [
        | inl e ↦ inl (e, ground arith)
        | inr e ↦ elim (Option-cases (follow atoi ids n after ts)) [
          | inl f ↦ absurd (ground arith)
          | inr (more, f) ↦ inr (more, e, f, ground arith)
        ]
      ]

  later_lost :
      (n : ℕ) (q : ListQuery) (x : String) (ts : Tasks) (pages : List (List TaskResponse))
      → str_eq q.cursor "" ≡ false
      → lt x q.cursor ≡ false
      → follow atoi ids n q ts ≡ some pages
      → listed x pages ≡ false
  unfolding follow
  later_lost zero q x ts pages h k e = cc
  later_lost (suc n) q x ts pages h k e =
      let page = list_tasks atoi ids q ts in
      let c = page.next_cursor in
      let here = page_below q x ts h k in
      elim (follow-some n q ts pages e) [
        | inl (f, p) ↦ rw (p, here) refl
        | inr (more, f, g, p) ↦
            rw (p, here)
              (later_lost n (record q { cursor = c }) x ts more f
                (ground (arith, next_falls q ts f, transitive x c q.cursor)) g)
      ]

  -- A task that is not on the first page, and whose id does not stand before that of the last task there,
  -- is on no page that the cursors lead to.
  pub follow-lost :
      (n : ℕ) (q : ListQuery) (x : String) (ts : Tasks) (pages : List (List TaskResponse))
      → any (item_has_id x) (list_tasks atoi ids q ts).items ≡ false
      → lt x (list_tasks atoi ids q ts).next_cursor ≡ false
      → follow atoi ids n q ts ≡ some pages
      → listed x pages ≡ false
  unfolding follow
  follow-lost zero q x ts pages h k e = cc
  follow-lost (suc n) q x ts pages h k e =
      let c = (list_tasks atoi ids q ts).next_cursor in
      elim (follow-some n q ts pages e) [
        | inl (f, p) ↦ rw (p, h) refl
        | inr (more, f, g, p) ↦ rw (p, h) (later_lost n (record q { cursor = c }) x ts more f k g)
      ]
