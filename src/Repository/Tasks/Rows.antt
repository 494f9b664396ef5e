-- ===== src/Repository/Tasks/Rows.antt =====
-- Counting rows: what an update of some rows does to the number of rows that pass a test.
use claude_ops.Prelude.{
  ℕ, ◌+◌, ◌≤◌, ◌≡◌, refl, subst, ltb, Bool, true, false, not, ◌&&◌, [], ◌∷◌, Option, none, some,
  arith, count, keep, any, Bool-cases, ◌⊎◌, inl, inr,
}
use claude_ops.Domain.Task.{Time, Task}
use claude_ops.Repository.Tasks.{Tasks, update_where, preferred, first_by, older}

-- An update adds to the rows that pass `q` at most the rows that it touches and that then pass.
pub count-update_where :
    (p q : Task → Bool) (f : Task → Task) (ts : Tasks)
    → count q (update_where p f ts) ≤ count q ts + count (λ t. p t && q (f t)) ts
unfolding update_where
count-update_where p q f [] = omega arith
count-update_where p q f (t ∷ ts) = ground (arith, count-update_where p q f ts)

-- An update that does not bear on `q` keeps their number.
pub count-update_where_same :
    (p q : Task → Bool) (f : Task → Task) (ts : Tasks)
    → ((t : Task) → q (f t) ≡ q t)
    → count q (update_where p f ts) ≡ count q ts
unfolding update_where
count-update_where_same p q f [] h = refl
count-update_where_same p q f (t ∷ ts) h = ground (arith, h t, count-update_where_same p q f ts h)

pub count-keep-le : (p q : Task → Bool) (ts : Tasks) → count q (keep p ts) ≤ count q ts
count-keep-le p q [] = omega arith
count-keep-le p q (t ∷ ts) = ground (arith, count-keep-le p q ts)

pub any-count : (p : Task → Bool) (ts : Tasks) → any p ts ≡ false → count p ts ≡ 0
any-count p [] h = refl
any-count p (t ∷ ts) h = ground (arith, any-count p ts)

pub count_split :
    (p q : Task → Bool) (ts : Tasks)
    → count (λ t. p t && q t) ts + count (λ t. p t && not (q t)) ts ≡ count p ts
count_split p q [] = refl
count_split p q (t ∷ ts) = ground (arith, count_split p q ts)

preferred-cases :
    (before : Task → Task → Bool) (t : Task) (o : Option Task) (x : Task)
    → preferred before t o ≡ some x
    → (t ≡ x) ⊎ (o ≡ some x)
unfolding preferred
preferred-cases before t none x h = inl (cc)
preferred-cases before t (some u) x h = elim (Bool-cases (before u t)) [
  | inl e ↦ inr (rw e at h)
  | inr e ↦ let p : some t ≡ some x = rw e at h in inl (cc)
]

preferred-some :
    (before : Task → Task → Bool) (t : Task) (o : Option Task)
    → (x : Task) × (preferred before t o ≡ some x)
unfolding preferred
preferred-some before t none = (t, refl)
preferred-some before t (some u) = elim (Bool-cases (before u t)) [
  | inl e ↦ (u, rw e)
  | inr e ↦ (t, rw e)
]

-- The row that an ORDER BY … LIMIT 1 takes is one of the rows.
pub first_by-counted :
    (before : Task → Task → Bool) (q : Task → Bool) (ts : Tasks) (t : Task)
    → first_by before ts ≡ some t
    → q t ≡ true
    → 1 ≤ count q ts
unfolding first_by
first_by-counted before q [] t h e = cc
first_by-counted before q (u ∷ us) t h e =
    elim (preferred-cases before u (first_by before us) t h) [
      | inl same ↦ rw (same, e) (omega arith)
      | inr rest ↦ ground (arith, first_by-counted before q us t rest e)
    ]

keep-all : (p : Task → Bool) (ts : Tasks) → count (λ t. not (p t)) (keep p ts) ≡ 0
keep-all p [] = refl
keep-all p (t ∷ ts) = ground (arith, keep-all p ts)

-- It passes the test by which the rows were chosen.
pub first_by-keep :
    (before : Task → Task → Bool) (p : Task → Bool) (ts : Tasks) (t : Task)
    → first_by before (keep p ts) ≡ some t
    → p t ≡ true
first_by-keep before p ts t h = elim (Bool-cases (p t)) [
  | inl e ↦ e
  | inr e ↦ absurd (
      omega (arith, keep-all p ts, first_by-counted before (λ u. not (p u)) (keep p ts) t h (rw e)))
]

-- A row is taken wherever there is one.
pub first_by-none : (before : Task → Task → Bool) (ts : Tasks) → first_by before ts ≡ none → ts ≡ []
unfolding first_by
first_by-none before [] h = refl
first_by-none before (u ∷ us) h =
    let (x, e) = preferred-some before u (first_by before us) in absurd (none_some x (cc (e, h)))
  where
    none_some : (x : Task) → none ≡ some x → ⊥
    none_some x e = cc

count_older :
    (m n : ℕ) (ts : Tasks)
    → m ≤ n
    → count (λ u. ltb u.created_at m) ts ≤ count (λ u. ltb u.created_at n) ts
count_older m n [] h = omega arith
count_older m n (t ∷ ts) h = ground (arith, count_older m n ts)

abbrev older_than : Time → Tasks → ℕ
older_than at ts = count (λ u. ltb u.created_at at) ts

preferred_oldest :
    (u : Task) (us : Tasks) (o : Option Task) (t : Task)
    → (o ≡ none → us ≡ [])
    → ((v : Task) → o ≡ some v → older_than v.created_at us ≡ 0)
    → preferred older u o ≡ some t
    → older_than t.created_at (u ∷ us) ≡ 0
unfolding preferred
preferred_oldest u us none t alone rest h =
    let same : u ≡ t = cc in
    subst (λ (x : Task). older_than x.created_at (u ∷ us) ≡ 0) same (rw (alone refl) (ground arith))
preferred_oldest u us (some v) t alone rest h = elim (Bool-cases (older v u)) [
  | inl e ↦
      let eq : some v ≡ some t = rw e at h in
      let same : v ≡ t = cc in
      subst (λ (x : Task). older_than x.created_at (u ∷ us) ≡ 0) same (ground (arith, rest v refl))
  | inr e ↦
      let eq : some u ≡ some t = rw e at h in
      let same : u ≡ t = cc in
      subst (λ (x : Task). older_than x.created_at (u ∷ us) ≡ 0) same
        (ground (arith, rest v refl, count_older u.created_at v.created_at us))
]

-- No row is older than the one that is taken.
pub first_by-oldest :
    (ts : Tasks) (t : Task)
    → first_by older ts ≡ some t
    → count (λ u. ltb u.created_at t.created_at) ts ≡ 0
unfolding first_by
first_by-oldest [] t h = cc
first_by-oldest (u ∷ us) t h =
    preferred_oldest u us (first_by older us) t (first_by-none older us)
      (λ v e. first_by-oldest us v e) h
