-- ===== src/CostGate/Store/Outcomes.antt =====
-- packages/cost-gate/src/durable/reservationStore.ts: what each call returns and when it is refused.
use byok_business_autopilot.Base.{
  ℕ, ◌≡◌, refl, sym, ◌∙◌, subst, true, Option, none, some, List, [], ◌∷◌, map, ok, err, ◌⊎◌, inl,
  inr, ◌≢◌, nat_eq, arith, Option-cases, Bool-cases,
}
use byok_business_autopilot.Base.Int.{ℤ, ◌+ℤ◌, ◌≤ℤ◌}
use byok_business_autopilot.Base.Dict.{Dict, lookup, lookup-insert_self}
use byok_business_autopilot.CostGate.Ceilings.{CeilingConfig, CeilingLevel, is_over}
use byok_business_autopilot.CostGate.Ledger.{
  ReservationStatus, reserved, settled, released, status_eq,
}
use byok_business_autopilot.CostGate.Store.Keys.{Day, CounterKey, key_eq, keys_of}
use byok_business_autopilot.CostGate.Store.Accounts.{spread, total_at-add_all}
use byok_business_autopilot.CostGate.Store.Invariant.{levels_for-keys, settle-ok, release-ok}
use byok_business_autopilot.CostGate.Store.Cap.{
  ceiling_for, Holds, Under, levels_for-Under, room_at,
}
use byok_business_autopilot.CostGate.Store.{
  Store, StoredReservation, Counter, LevelEntry, ReserveInput, accepted, refused, entry_key,
  total_at, levels_for, first_exceeded, commit, reserve_atomic, settle, release, get_reserved,
  unknown_or_resolved, resolve_as,
}

abbrev pub keys_for : ReserveInput → Day → List CounterKey
keys_for input day = keys_of input.tenant_id input.role_id input.type_id day

-- Every ceiling over the task's four counters has room for its amount.
abbrev pub HasRoom : CeilingConfig → ReserveInput → Day → Store → Type 0
HasRoom c input day s =
    (k : CounterKey) (m : ℤ)
    → Holds k (keys_for input day)
    → ceiling_for c k ≡ some m
    → total_at k s.counters +ℤ input.amount ≤ℤ m

-- A counter of that level, of the task, whose ceiling the amount would pass.
abbrev pub Lacks : CeilingConfig → ReserveInput → Day → Store → CeilingLevel → Type 0
Lacks c input day s l =
    (k : CounterKey) × (m : ℤ) × Holds k (keys_for input day)
    × (k.level ≡ l)
    × (ceiling_for c k ≡ some m)
    × (¬ (total_at k s.counters +ℤ input.amount ≤ℤ m))

over_ceiling : (o : Option ℤ) (x : ℤ) → is_over o x ≡ true → (m : ℤ) × (o ≡ some m) × (¬ (x ≤ℤ m))
over_ceiling none x h = cc
over_ceiling (some m) x h = (m, refl, ground arith)

first_exceeded-some :
    (c : CeilingConfig) (t : ℕ) (a : ℤ) (cs : Dict CounterKey Counter) (es : List LevelEntry)
    (l : CeilingLevel)
    → Under c t es
    → first_exceeded t a cs es ≡ some l
    → (k : CounterKey) × (m : ℤ) × Holds k (map (entry_key t) es)
      × (k.level ≡ l)
      × (ceiling_for c k ≡ some m)
      × (¬ (total_at k cs +ℤ a ≤ℤ m))
unfolding first_exceeded
first_exceeded-some c t a cs [] l u h = cc
first_exceeded-some c t a cs (e ∷ es) l (u, us) h =
    elim (Bool-cases (is_over e.ceiling (total_at (entry_key t e) cs +ℤ a))) [
      | inl over ↦
          let (m, is, above) = over_ceiling e.ceiling _ over in
          (entry_key t e, m, inl refl, ground arith, sym u ∙ is, above)
      | inr room ↦
          let (k, m, at, level, is, above) = first_exceeded-some c t a cs es l us (ground arith) in
          (k, m, inr at, level, is, above)
    ]

-- A task is accepted where every ceiling over its four counters has room for it, and then each counter
-- grows by the amount under the task's keys. Otherwise nothing changes, and the level that the refusal
-- names is that of a counter without room.
pub reserve_atomic_outcome :
    (id : ℕ) (day : Day) (input : ReserveInput) (c : CeilingConfig) (s : Store)
    → let (result, s') = reserve_atomic id day input c s in
      ((result ≡ accepted id)
        × HasRoom c input day s
        × ((k : CounterKey)
            → total_at k s'.counters
              ≡ total_at k s.counters +ℤ spread (keys_for input day) input.amount k))
      ⊎ ((l : CeilingLevel) × (result ≡ refused l) × (s' ≡ s) × Lacks c input day s l)
unfolding reserve_atomic commit
reserve_atomic_outcome id day input c s =
    elim (Option-cases
      (first_exceeded input.tenant_id input.amount s.counters (levels_for input c day))) [
        | inl e ↦
            rw (e, reserve_atomic)
              (inl (
                refl,
                (λ k m holds is.
                    room_at c input.tenant_id input.amount m s.counters (levels_for input c day) k e
                      (levels_for-Under input c day)
                      (subst (Holds k) (sym (levels_for-keys input c day)) holds) is),
                (λ k. rw (
                  total_at-add_all input.tenant_id input.amount (levels_for input c day) s.counters
                      k,
                  levels_for-keys input c day,
                )),
              ))
        | inr (l, e) ↦
            let (k, m, at, level, is, above) =
              first_exceeded-some c input.tenant_id input.amount s.counters (levels_for input c day)
                l (levels_for-Under input c day) e in
            rw (e, reserve_atomic)
              (inr (
                l,
                refl,
                refl,
                (k, m, subst (Holds k) (levels_for-keys input c day) at, level, is, above),
              ))
      ]

resolved_closed :
    (u id : ℕ) (status : ReservationStatus) (a d : ℤ) (r : StoredReservation) (s : Store)
    → status ≢ reserved
    → get_reserved u id (resolve_as status a d id r s) ≡ err unknown_or_resolved
unfolding get_reserved
resolved_closed u id status a d r s n =
    rw (lookup-insert_self {V = StoredReservation} id _ s.reservations) (ground arith)

closed_refuses :
    (u id : ℕ) (again : ℤ) (s : Store)
    → get_reserved u id s ≡ err unknown_or_resolved
    → (settle u id again s ≡ err unknown_or_resolved) × (release u id s ≡ err unknown_or_resolved)
unfolding settle release
closed_refuses u id again s e = (rw (e, settle), rw (e, release))

-- After a reservation is settled or released, every further `settle` or `release` of it is an error,
-- for any tenant.
pub resolves_once :
    (t u id : ℕ) (actual again : ℤ) (s s' : Store)
    → (settle t id actual s ≡ ok s') ⊎ (release t id s ≡ ok s')
    → (settle u id again s' ≡ err unknown_or_resolved) × (release u id s' ≡ err unknown_or_resolved)
resolves_once t u id actual again s s' (inl e) =
    let (r, _, done) = settle-ok t id actual s s' e in
    subst
      (λ x.
        (settle u id again x ≡ err unknown_or_resolved)
        × (release u id x ≡ err unknown_or_resolved))
      done (closed_refuses u id again _ (resolved_closed u id settled actual _ r s (λ x. cc)))
resolves_once t u id actual again s s' (inr e) =
    let (r, _, done) = release-ok t id s s' e in
    subst
      (λ x.
        (settle u id again x ≡ err unknown_or_resolved)
        × (release u id x ≡ err unknown_or_resolved))
      done (closed_refuses u id again _ (resolved_closed u id released r.amount _ r s (λ x. cc)))

-- Only the tenant that reserved resolves: for any other tenant both calls are errors.
pub resolves_own :
    (t id : ℕ) (actual : ℤ) (s : Store) (r : StoredReservation)
    → lookup id s.reservations ≡ some r
    → r.tenant_id ≢ t
    → (settle t id actual s ≡ err unknown_or_resolved) × (release t id s ≡ err unknown_or_resolved)
unfolding get_reserved
resolves_own t id actual s r e n =
    closed_refuses t id actual s (unfold get_reserved in rw e (ground arith))
