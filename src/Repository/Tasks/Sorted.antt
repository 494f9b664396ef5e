-- ===== src/Repository/Tasks/Sorted.antt =====
-- Whether some row passes a test, through ORDER BY, LIMIT and WHERE.
use claude_ops.Prelude.{
  ℕ, zero, suc, ◌≡◌, refl, ap, ◌∙◌, Bool, true, ◌&&◌, ◌||◌, [], ◌∷◌, keep, take, any, arith,
}
use claude_ops.Domain.Task.{Task}
use claude_ops.Repository.Tasks.{Tasks, insert_by, sort_by}

any-insert_by :
    (before : Task → Task → Bool) (p : Task → Bool) (t : Task) (us : Tasks)
    → any p (insert_by before t us) ≡ any p (t ∷ us)
unfolding insert_by
any-insert_by before p t [] = refl
any-insert_by before p t (u ∷ us) = ground (arith, any-insert_by before p t us)

pub any-sort_by :
    (before : Task → Task → Bool) (p : Task → Bool) (ts : Tasks)
    → any p (sort_by before ts) ≡ any p ts
unfolding sort_by
any-sort_by before p [] = refl
any-sort_by before p (t ∷ ts) =
    any-insert_by before p t (sort_by before ts) ∙ ap (λ b. p t || b) (any-sort_by before p ts)

pub any-take : (n : ℕ) (p : Task → Bool) (ts : Tasks) → any p (take n ts) ≡ true → any p ts ≡ true
any-take zero p ts h = cc
any-take (suc n) p [] h = h
any-take (suc n) p (t ∷ ts) h = ground (arith, any-take n p ts)

pub any-keep : (q p : Task → Bool) (ts : Tasks) → any p (keep q ts) ≡ any (λ t. p t && q t) ts
any-keep q p [] = refl
any-keep q p (t ∷ ts) = ground (arith, any-keep q p ts)

pub any_mono :
    (p q : Task → Bool) (ts : Tasks)
    → ((t : Task) → p t ≡ true → q t ≡ true)
    → any p ts ≡ true
    → any q ts ≡ true
any_mono p q [] sub h = cc
any_mono p q (t ∷ ts) sub h = ground (arith, sub t, any_mono p q ts sub)
