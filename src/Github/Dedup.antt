-- ===== src/Github/Dedup.antt =====
-- internal/github/webhook_dedup.go: the deliveries seen within a time to live. The map is a list
-- of its entries in which the first of a key counts.
use claude_ops.Prelude.{
  ℕ, ◌+◌, ◌≤◌, ◌<◌, String, ◌≡◌, refl, Bool, true, false, not, Option, none, some, List, [], ◌∷◌,
  arith, ltb, keep, str_eq, str_eq_self, if◌then◌else◌, Bool-cases, eq_iff, sym, subst, lt→ltb, inl,
  inr,
}
use claude_ops.Domain.Task.{Time}

abbrev pub Deliveries : Type 0
Deliveries = List (String × Time)

unfoldable pub expires_at : String → Deliveries → Option Time
expires_at id [] = none
expires_at id ((key, at) ∷ rest) =
    let found = expires_at id rest in if str_eq key id then some at else found

before : Time → Option Time → Bool
before now none = false
before now (some at) = ltb now at

-- CheckAndAdd: whether the delivery is new, and the cache with it
unfoldable pub check_and_add : ℕ → Time → String → Deliveries → Bool × Deliveries
unfolding before
check_and_add ttl now id seen =
    if before now (expires_at id seen) then (false, seen) else (true, (id, now + ttl) ∷ seen)

-- evictExpired
unfoldable pub evict_expired : Time → Deliveries → Deliveries
evict_expired now = keep (λ (key, at). not (ltb at now))

-- What goes on between two deliveries: others are checked, and expired ones are swept.
pub data Event : Type 0 where
  check : Time → String → Event
  sweep : Time → Event

abbrev pub time_of : Event → Time
time_of (check now id) = now
time_of (sweep now) = now

unfoldable pub run : ℕ → List Event → Deliveries → Deliveries
run ttl [] seen = seen
run ttl (check now id ∷ es) seen = run ttl es (check_and_add ttl now id seen).1
run ttl (sweep now ∷ es) seen = run ttl es (evict_expired now seen)

-- Every one of them happens before a time.
unfoldable pub AllBefore : Time → List Event → Type 0
AllBefore end [] = Unit {0}
AllBefore end (e ∷ es) = (time_of e < end) × AllBefore end es

expires_at-sweep :
    (now : Time) (id : String) (seen : Deliveries) (at : Time)
    → expires_at id seen ≡ some at
    → now ≤ at
    → expires_at id (evict_expired now seen) ≡ some at
unfolding expires_at evict_expired
expires_at-sweep now id [] at h le = cc
expires_at-sweep now id ((key, t) ∷ rest) at h le = ground (arith, expires_at-sweep now id rest at)

expires_at-check :
    (ttl : ℕ) (now : Time) (other id : String) (seen : Deliveries) (at : Time)
    → expires_at id seen ≡ some at
    → now < at
    → expires_at id (check_and_add ttl now other seen).1 ≡ some at
unfolding check_and_add before expires_at
expires_at-check ttl now other id seen at h lt = elim (Bool-cases (str_eq other id)) [
  | inl e ↦
      let same : other ≡ id = (eq_iff other id).0 e in
      let again : expires_at other seen ≡ some at =
        subst (λ (x : String). expires_at x seen ≡ some at) (sym same) h in
      rw (again, lt→ltb now at lt) h
  | inr e ↦ elim (Bool-cases (before now (expires_at other seen))) [
    | inl f ↦ rw f h
    | inr f ↦ rw (f, e) h
  ]
]

run-expires_at :
    (ttl : ℕ) (id : String) (es : List Event) (seen : Deliveries) (at : Time)
    → AllBefore at es
    → expires_at id seen ≡ some at
    → expires_at id (run ttl es seen) ≡ some at
unfolding run AllBefore
run-expires_at ttl id [] seen at b h = h
run-expires_at ttl id (check now other ∷ es) seen at (b, bs) h =
    run-expires_at ttl id es (check_and_add ttl now other seen).1 at bs
      (expires_at-check ttl now other id seen at h b)
run-expires_at ttl id (sweep now ∷ es) seen at (b, bs) h =
    run-expires_at ttl id es (evict_expired now seen) at bs
      (expires_at-sweep now id seen at h (omega (arith, b)))

accepted-expires_at :
    (ttl : ℕ) (now : Time) (id : String) (seen : Deliveries)
    → (check_and_add ttl now id seen).0 ≡ true
    → expires_at id (check_and_add ttl now id seen).1 ≡ some (now + ttl)
unfolding check_and_add expires_at
accepted-expires_at ttl now id seen h = elim (Bool-cases (before now (expires_at id seen))) [
  | inl f ↦ ground arith
  | inr f ↦ rw (f, str_eq_self id) refl
]

-- Until its time to live has passed, a delivery that was accepted is a duplicate, whatever other
-- deliveries come and however often the cache is swept in that time.
pub check_and_add-duplicate :
    (ttl : ℕ) (now : Time) (id : String) (seen : Deliveries) (es : List Event) (again : Time)
    → (check_and_add ttl now id seen).0 ≡ true
    → AllBefore (now + ttl) es
    → again < now + ttl
    → (check_and_add ttl again id (run ttl es (check_and_add ttl now id seen).1)).0 ≡ false
unfolding check_and_add before
check_and_add-duplicate ttl now id seen es again h bs lt =
    let kept =
      run-expires_at ttl id es (check_and_add ttl now id seen).1 (now + ttl) bs
        (accepted-expires_at ttl now id seen h) in
    rw (kept, lt→ltb again (now + ttl) lt) refl
