-- ===== src/Mutate/Lock/Exclusion.antt =====
-- Readers and writers: who holds a guard at any moment.
use reporigor.Mutate.Lock.Steps.{
  Reachable, IsConsistent, IsCounted, then_step, holders, recount, mode_count, acquired,
  holders-append, kept, store-here, refused, dropped, store-elsewhere, holders-here, start,
  holders-elsewhere, granted, dropped_entry,
}
use reporigor.Mutate.Lock.{
  LockTable, ProcessLockGuard, acquire_guard, drop_guard, try_acquire, ProcessLockState, or_default,
  drop_entry, store, answer,
}
use reporigor.Prelude.{
  ℕ, ◌+◌, ◌≤◌, ◌≡◌, refl, sym, ap, ◌∙◌, ◌⊎◌, inl, inr, Bool, true, false, Option, none, some, List,
  ◌∷◌, ◌++◌, arith, Bool-cases, Text, text_eq, text_eq_iff,
}

-- What an answer of `acquire_guard` says of the entry.
answer_granted :
    (r : Bool × ProcessLockState) (t t' : LockTable) (path : Text) (e : Bool) (g : ProcessLockGuard)
    → answer t path e r ≡ (some g, t')
    → (r.0 ≡ true) × (record { path = path; exclusive = e } ≡ g) × (store t path (some r.1) ≡ t')
answer_granted (true, s) t t' path e g h = (
  refl,
  ground (arith, ap (λ (x : Option ProcessLockGuard × LockTable). x.0) h),
  ap (λ (x : Option ProcessLockGuard × LockTable). x.1) h,
)
answer_granted (false, s) t t' path e g h =
    ground (arith, ap (λ (x : Option ProcessLockGuard × LockTable). x.0) h)

answer_refused :
    (r : Bool × ProcessLockState) (t t' : LockTable) (path : Text) (e : Bool)
    → answer t path e r ≡ (none, t')
    → (r.0 ≡ false) × (store t path (some r.1) ≡ t')
answer_refused (true, s) t t' path e h =
    ground (arith, ap (λ (x : Option ProcessLockGuard × LockTable). x.0) h)
answer_refused (false, s) t t' path e h =
    (refl, ap (λ (x : Option ProcessLockGuard × LockTable). x.1) h)

granted-IsConsistent :
    (t : LockTable) (held : List ProcessLockGuard) (path : Text) (e : Bool)
    → IsConsistent (t, held)
    → (try_acquire (or_default (t path)) e).0 ≡ true
    → IsConsistent (
      store t path (some (try_acquire (or_default (t path)) e).1),
      record { path = path; exclusive = e } ∷ held,
    )
granted-IsConsistent t held path e c made q = from (Bool-cases (text_eq q path))
  where
    here :
        (s : Bool × ProcessLockState)
        → try_acquire (or_default (t path)) e ≡ s
        → s.0 ≡ true
        → try_acquire (or_default (t path)) e ≡ (true, s.1)
    here (true, s) eq h = eq
    here (false, s) eq h = ground (arith, h)

    from :
        (text_eq q path ≡ true) ⊎ (text_eq q path ≡ false)
        → IsCounted
            (store t path (some (try_acquire (or_default (t path)) e).1) q)
            (holders q false (record { path = path; exclusive = e } ∷ held))
            (holders q true (record { path = path; exclusive = e } ∷ held))
    from (inl same) =
        recount (ap or_default (sym (store-here t q path _ same)))
          (sym (holders-here q false (record { path = path; exclusive = e }) held same))
          (sym (holders-here q true (record { path = path; exclusive = e }) held same))
          (granted (or_default (t path)) _ e _ _
            (here (try_acquire (or_default (t path)) e) refl made)
            (recount (ap (λ (x : Text). or_default (t x)) ((text_eq_iff q path).0 same)) refl refl
              (c q)))
    from (inr other) =
        recount (ap or_default (sym (store-elsewhere t q path _ other)))
          (sym (holders-elsewhere q false (record { path = path; exclusive = e }) held other))
          (sym (holders-elsewhere q true (record { path = path; exclusive = e }) held other)) (c q)

refused-IsConsistent :
    (t : LockTable) (held : List ProcessLockGuard) (path : Text) (e : Bool)
    → IsConsistent (t, held)
    → (try_acquire (or_default (t path)) e).0 ≡ false
    → IsConsistent (store t path (some (try_acquire (or_default (t path)) e).1), held)
refused-IsConsistent t held path e c made q = from (Bool-cases (text_eq q path))
  where
    here :
        (s : Bool × ProcessLockState)
        → try_acquire (or_default (t path)) e ≡ s
        → s.0 ≡ false
        → try_acquire (or_default (t path)) e ≡ (false, s.1)
    here (false, s) eq h = eq
    here (true, s) eq h = ground (arith, h)

    from :
        (text_eq q path ≡ true) ⊎ (text_eq q path ≡ false)
        → IsCounted
            (store t path (some (try_acquire (or_default (t path)) e).1) q)
            (holders q false held)
            (holders q true held)
    from (inl same) =
        recount
          (ap (λ (x : Text). or_default (t x)) ((text_eq_iff q path).0 same)
            ∙ kept (or_default (t path)) _ e (here (try_acquire (or_default (t path)) e) refl made)
            ∙ ap or_default (sym (store-here t q path _ same)))
          refl refl (c q)
    from (inr other) =
        recount (ap or_default (sym (store-elsewhere t q path _ other))) refl refl (c q)

dropped-IsConsistent :
    (t : LockTable) (before after : List ProcessLockGuard) (g : ProcessLockGuard)
    → IsConsistent (t, before ++ (g ∷ after))
    → IsConsistent (drop_guard t g, before ++ after)
unfolding drop_guard
dropped-IsConsistent t before after g c q = from (Bool-cases (text_eq q g.path))
  where
    less :
        (e : Bool)
        → text_eq q g.path ≡ true
        → holders q e (before ++ (g ∷ after))
          ≡ holders q e (before ++ after) + mode_count e g.exclusive
    less e same = omega (
      arith,
      holders-append q e before (g ∷ after),
      holders-append q e before after,
      holders-here q e g after same,
    )

    equal :
        (e : Bool)
        → text_eq q g.path ≡ false
        → holders q e (before ++ (g ∷ after)) ≡ holders q e (before ++ after)
    equal e other = omega (
      arith,
      holders-append q e before (g ∷ after),
      holders-append q e before after,
      holders-elsewhere q e g after other,
    )

    from :
        (text_eq q g.path ≡ true) ⊎ (text_eq q g.path ≡ false)
        → IsCounted
            (store t g.path (drop_entry g.exclusive (t g.path)) q)
            (holders q false (before ++ after))
            (holders q true (before ++ after))
    from (inl same) = recount (ap or_default (sym (store-here t q g.path _ same))) refl refl (
        dropped_entry (t g.path) g.exclusive _ _ (
          recount (ap (λ (x : Text). or_default (t x)) ((text_eq_iff q g.path).0 same))
            (less false same) (less true same) (c q)))
    from (inr other) =
        recount (ap or_default (sym (store-elsewhere t q g.path _ other))) (equal false other)
          (equal true other) (c q)

Reachable-IsConsistent : {a : LockTable × List ProcessLockGuard} → Reachable a → IsConsistent a
unfolding acquire_guard
Reachable-IsConsistent start = λ q. record { readers = refl; writer = refl; alone = λ h. refl }
Reachable-IsConsistent (then_step {a = (t, held)} r (acquired {t' = t'} {g = g} path e made)) =
    let (yes', same, stored) =
      answer_granted (try_acquire (or_default (t path)) e) t t' path e g made in
    rw (← same, ← stored) (granted-IsConsistent t held path e (Reachable-IsConsistent r) yes')
Reachable-IsConsistent (then_step {a = (t, held)} r (refused {t' = t'} path e made)) =
    let (no', stored) = answer_refused (try_acquire (or_default (t path)) e) t t' path e made in
    rw (← stored) (refused-IsConsistent t held path e (Reachable-IsConsistent r) no')
Reachable-IsConsistent (then_step r (dropped {t = t} before after g)) =
    dropped-IsConsistent t before after g (Reachable-IsConsistent r)

alone_of : (o : Option ProcessLockState) (k n : ℕ) → IsCounted o k n → (n ≤ 1) × (n ≡ 0 ⊎ k ≡ 0)
alone_of o k n c = from (Bool-cases (or_default o).writer)
  where
    from :
        ((or_default o).writer ≡ true) ⊎ ((or_default o).writer ≡ false) → (n ≤ 1) × (n ≡ 0 ⊎ k ≡ 0)
    from (inl taken) =
        let one : 1 ≡ n = rw taken at c.writer in
        (omega (arith, one), inr (sym c.readers ∙ c.alone taken))
    from (inr free) =
        let none_held : 0 ≡ n = rw free at c.writer in
        (omega (arith, none_held), inl (sym none_held))

-- In every reachable state of the process, whatever was acquired, refused and dropped before: a
-- path has at most one exclusive guard, and while it has one, no shared guard.
pub Reachable-exclusive :
    (a : LockTable × List ProcessLockGuard) (q : Text)
    → Reachable a
    → (holders q true a.1 ≤ 1) × (holders q true a.1 ≡ 0 ⊎ holders q false a.1 ≡ 0)
Reachable-exclusive a q r = alone_of (a.0 q) _ _ (Reachable-IsConsistent r q)
