-- ===== src/Ledger/Identity/Drain.antt =====
-- The drain of the intake keeps what an event ID identifies.
use glare9_provenance.Prelude.{
  ok-injective, ℕ, leb, if◌then◌else◌, Bytes, Bool, true, false, [], ◌∷◌, List, All, Option, none,
  some, Option-cases, Result, ok, err, ◌≡◌, sym, ap, subst, inl, inr,
}
use glare9_provenance.Prelude.Dict.{Dict, get, has, values, has-eq_true}
use glare9_provenance.Prelude.Entries.{Entries}
use glare9_provenance.Prelude.Action.{
  return, gets, ◌>>=◌, Keeps, Keeps-return, Keeps-throw, Keeps-gets, Keeps-bind, Keeps-for_each,
  Keeps-for_each_of, Keeps-gets_of, Keeps-lift_of,
}
use glare9_provenance.Prelude.Hoare.{Runs, Runs-lift, Runs-modify, Runs-bind, Runs-state}
use glare9_provenance.Codec.Utf8.{Text}
use glare9_provenance.Ledger.Config.{Lifecycle}
use glare9_provenance.Ledger.State.{Pending, Sealed, Epoch, State, Environment}
use glare9_provenance.Ledger.Active.{Routed}
use glare9_provenance.Ledger.Segments.Exact.{Runs-call}
use glare9_provenance.Ledger.Identity.{Fits, PendingFits}
use glare9_provenance.Ledger.Identity.Changes.{Good, RecordsFit, Good-disk, Good-call, Good-forget}
use glare9_provenance.Ledger.Identity.Segments.{seal_active_segment-Keeps}
use glare9_provenance.Sharding.{route_event}
use glare9_provenance.Ledger.Drain.{
  insert_pending, sort_pending, filter_pending, put_epoch, settle_sealed, settle, ensure_epoch_of,
  route_pending, route_all, append_under, append_routed, seal_all, seal_when, drain_accepted,
}
use glare9_provenance.Ledger.Transition.{transition_routing}
use glare9_provenance.Prelude.Errors
use glare9_provenance.Ledger.Transition.Routing.{
  ensure_genesis_routing_epoch-Keeps, transition_routing-Keeps,
}
use glare9_provenance.Ledger.Identity.Appending.{append_to_active-Keeps}

module _ {E : Type 0} (F : Pending E → Type 0) where
  All-insert_pending :
      (p : Pending E) (ps : List (Pending E)) → F p → All F ps → All F (insert_pending p ps)
  unfolding insert_pending
  All-insert_pending p [] f fs = (f, tt)
  All-insert_pending p (q ∷ qs) f (g, gs) =
      elim (leb p.sequence q.sequence)
        as (λ b. All F (if b then p ∷ q ∷ qs else q ∷ insert_pending p qs)) [
          | true ↦ (f, (g, gs))
          | false ↦ (g, All-insert_pending p qs f gs)
        ]

  All-sort_pending : (ps : List (Pending E)) → All F ps → All F (sort_pending ps)
  unfolding sort_pending
  All-sort_pending [] fs = tt
  All-sort_pending (p ∷ ps) (f, fs) = All-insert_pending p _ f (All-sort_pending ps fs)

  All-filter_pending :
      (keep : Pending E → Bool) (ps : List (Pending E)) → All F ps → All F (filter_pending keep ps)
  unfolding filter_pending
  All-filter_pending keep [] fs = tt
  All-filter_pending keep (p ∷ ps) (f, fs) =
      let rest = All-filter_pending keep ps fs in
      elim (keep p)
        as (λ b. All F (if b then p ∷ filter_pending keep ps else filter_pending keep ps)) [
          | true ↦ (f, rest)
          | false ↦ rest
        ]

module _ (env : Environment) (lifecycle : Lifecycle) (claimed : Bool) (id : Text)
    (hash : Bytes) where
  open env use {Event, Disk, event_id, ledger_id, subject, sha256}

  abbrev G : State Event Disk → Type 0
  G = Good env lifecycle claimed id hash

  values-RecordsFit :
      (d : Dict (Pending Event))
      → Entries (PendingFits env lifecycle id hash) d
      → RecordsFit env lifecycle id hash (values d)
  unfolding values
  values-RecordsFit [] h = tt
  values-RecordsFit ((k, p) ∷ d) ((same, f), h) = (f, values-RecordsFit d h)

  pub put_epoch-Good :
      (ledger : Text) (epoch : Epoch) (s : State Event Disk)
      → G s
      → G (put_epoch env lifecycle ledger epoch s)
  put_epoch-Good ledger epoch s (known, g) = (
    known,
    record {
      sealed_fits = g.sealed_fits;
      provisional_fits = g.provisional_fits;
      pending_fits = g.pending_fits;
      segments_fit = g.segments_fit;
    },
  )

  settle_sealed-Runs :
      (p : Pending Event) (receipt : Sealed)
      → Runs
          (λ s. G s × (event_id p.event ≡ id → has id s.event_index ≡ true))
          (settle_sealed env lifecycle p (some receipt))
          (λ _. G)
          G
  unfolding settle_sealed
  settle_sealed-Runs p receipt =
      let P =
        λ (s : State Event Disk). G s × (event_id p.event ≡ id → has id s.event_index ≡ true) in
      Runs-bind (λ _. P) _ _ (Runs-lift _ (λ _ s _ h. h) (λ s h. h.0))
        (λ _.
          Runs-bind (λ _. P) _ _
            (Runs-call env lifecycle _
              (λ _ s disk (h, c). (Good-disk env lifecycle claimed id hash s disk h, c))
              (λ s disk (h, c). Good-disk env lifecycle claimed id hash s disk h))
            (λ _. Runs-modify _ (λ s (h, c). Good-forget env lifecycle claimed id hash p s c h)))

  settle-Keeps : (p : Pending Event) → Keeps G (settle env lifecycle p)
  unfolding settle gets ◌>>=◌ settle_sealed return
  settle-Keeps p = record {
    holds = λ s h. elim (Option-cases (get (event_id p.event) s.event_index)) [
      | inl e ↦ rw (e, settle, settle_sealed, return) h
      | inr (r, e) ↦
          rw (e, settle)
            (Runs-state _ (settle_sealed-Runs p r) s (
              h,
              λ same.
                  subst (λ k. has k s.event_index ≡ true) same (has-eq_true _ s.event_index r e),
            ))
    ];
  }

  route_pending-eq_ok :
      (epochs : Dict Epoch) (p : Pending Event) (item : Routed Event)
      → route_pending env lifecycle epochs p ≡ ok item
      → item.pending ≡ p
  unfolding route_pending
  route_pending-eq_ok epochs p item h = elim (Option-cases (get (ledger_id p.event) epochs)) [
    | inl e ↦
        (let h' : ◌≡◌ {A = Result (Routed Event)} (err "TypeError") (ok item) =
            rw (e, route_pending) at h in
          cc)
    | inr (epoch, e) ↦
        (let (route, _, made) =
            Errors.>>=-eq-ok
              (route_event sha256 (ledger_id p.event) (subject p.event) epoch.routing_policy) _
              (rw (e, route_pending) at h) in
          sym (ap (λ x. x.pending) (ok-injective _ _ made)))
  ]

  abbrev ItemsFit : List (Routed Event) → Type 0
  ItemsFit items = All (λ item. Fits env lifecycle id hash item.pending) items

  route_all-ItemsFit :
      (epochs : Dict Epoch) (ps : List (Pending Event)) (items : List (Routed Event))
      → RecordsFit env lifecycle id hash ps
      → route_all env lifecycle epochs ps ≡ ok items
      → ItemsFit items
  unfolding route_all
  route_all-ItemsFit epochs [] items fs h = subst ItemsFit (ok-injective [] items h) tt
  route_all-ItemsFit epochs (p ∷ ps) items (f, fs) h =
      let (item, first, h1) = Errors.>>=-eq-ok (route_pending env lifecycle epochs p) _ h in
      let (others, rest, h2) = Errors.>>=-eq-ok (route_all env lifecycle epochs ps) _ h1 in
      subst ItemsFit (ok-injective _ items h2) (
        subst (Fits env lifecycle id hash) (sym (route_pending-eq_ok epochs p item first)) f,
        route_all-ItemsFit epochs ps others fs rest,
      )

  append_under-Keeps :
      (item : Routed Event) (epoch : Option Epoch)
      → Fits env lifecycle id hash item.pending
      → Keeps G (append_under env lifecycle item epoch)
  unfolding append_under
  append_under-Keeps item none f = Keeps-throw "TypeError"
  append_under-Keeps item (some epoch) f =
      append_to_active-Keeps env lifecycle claimed id hash item epoch f

  seal_when-Keeps : (b : Bool) → Keeps G (seal_when env lifecycle b)
  unfolding seal_when seal_all
  seal_when-Keeps true = Keeps-bind _ _ (Keeps-gets _) (λ actives.
      Keeps-for_each _ actives (λ a. seal_active_segment-Keeps env lifecycle claimed id hash a.key))
  seal_when-Keeps false = Keeps-return tt

  -- Draining the intake keeps what the event ID identifies, at every point where it can throw.
  pub drain_accepted-Keeps : (force_seal : Bool) → Keeps G (drain_accepted env lifecycle force_seal)
  unfolding drain_accepted ensure_epoch_of append_routed
  drain_accepted-Keeps force_seal = Keeps-bind _ _ (Keeps-gets _) (λ retained.
      Keeps-bind _ _ (Keeps-for_each _ retained settle-Keeps) (λ _.
        Keeps-gets_of (RecordsFit env lifecycle id hash) _ _
          (λ s (known, g). All-sort_pending _ _ (values-RecordsFit s.pending_index g.pending_fits))
          (λ records fits.
            Keeps-bind _ _
              (Keeps-for_each _ records (λ p.
                Keeps-bind _ _
                  (ensure_genesis_routing_epoch-Keeps env lifecycle G
                    (Good-call env lifecycle claimed id hash) put_epoch-Good _)
                  (λ _. Keeps-return tt)))
              (λ _.
                Keeps-gets_of (RecordsFit env lifecycle id hash) _ _
                  (λ s _. All-filter_pending _ _ records fits)
                  (λ unique_new new_fit. Keeps-bind _ _ (Keeps-gets _) (λ epochs.
                    Keeps-lift_of _ _ (λ items routed.
                      Keeps-bind _ _
                        (Keeps-for_each_of (λ item. Fits env lifecycle id hash item.pending) _ items
                          (route_all-ItemsFit epochs unique_new items new_fit routed)
                          (λ item f.
                            Keeps-bind _ _ (Keeps-gets _)
                              (λ epoch. append_under-Keeps item epoch f)))
                        (λ _. seal_when-Keeps force_seal))))))))

  -- So does a change of the routing.
  pub transition-Keeps :
      (ledger : Text) (shard_count : ℕ) (reason : Text) (expected : Option ℕ)
      → Keeps G (transition_routing env lifecycle ledger shard_count reason expected)
  transition-Keeps =
      transition_routing-Keeps env lifecycle G (Good-call env lifecycle claimed id hash)
        put_epoch-Good (drain_accepted-Keeps true)
