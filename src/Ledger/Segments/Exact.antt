-- ===== src/Ledger/Segments/Exact.antt =====
-- The memory of the active blocks: `activeBlockBytes` of the ledger is the sum of those of its
-- segments, each is the bytes of the records in its block, and the sum is within the limit.
use glare9_provenance.Prelude.{
  ℕ, ◌+◌, ◌≤◌, [], ◌∷◌, ◌++◌, List, none, some, Option-cases, Result, ok, err, ◌≡◌, ◌∙◌, arith, inl,
  inr,
}
use glare9_provenance.Prelude.Dict.{
  Dict, get, set, delete, total, weight, total-set, total-delete, get-set,
}
use glare9_provenance.Prelude.Octets.{equals_refl}
use glare9_provenance.Prelude.Entries.{Entries, Entries-get, Entries-set, Entries-delete}
use glare9_provenance.Prelude.Action.{Action}
use glare9_provenance.Prelude.Hoare.{Runs, Ends}
use glare9_provenance.Codec.Utf8.{Text}
use glare9_provenance.Ledger.Config.{Lifecycle}
use glare9_provenance.Ledger.State.{Pending, Active, State, Environment}
use glare9_provenance.Ledger.Active.{call}
use glare9_provenance.Ledger.Segments.{with_active}

-- The bytes of the framed records of a block.
unfoldable pub framed_bytes : {E : Type 0} → List (Pending E) → ℕ
framed_bytes [] = 0
framed_bytes (p ∷ ps) = p.event_bytes + 4 + framed_bytes ps

pub framed_bytes-append :
    {E : Type 0} (ps : List (Pending E)) (p : Pending E)
    → framed_bytes (ps ++ p ∷ []) ≡ framed_bytes ps + (p.event_bytes + 4)
unfolding framed_bytes
framed_bytes-append [] p = omega arith
framed_bytes-append (q ∷ ps) p = omega (arith, framed_bytes-append ps p)

-- A segment stands under its key, and counts the bytes of its block.
pub record IsCounted {E : Type 0} (key : Text) (a : Active E) : Type 0 where
  pub under_key : a.key ≡ key
  pub counted : a.active_block_bytes ≡ framed_bytes a.active_block

module _ {E : Type 0} (limit : ℕ) where
  pub record Memory (segments : Dict (Active E)) (bytes : ℕ) : Type 0 where
    pub exact : bytes ≡ total (λ a. a.active_block_bytes) segments
    pub each : Entries IsCounted segments
    pub within : bytes ≤ limit

  pub Memory-replace :
      (key : Text) (a b : Active E) (segments : Dict (Active E)) (bytes bytes' : ℕ)
      → Memory segments bytes
      → get key segments ≡ some a
      → IsCounted key b
      → bytes' + a.active_block_bytes ≡ bytes + b.active_block_bytes
      → bytes' ≤ limit
      → Memory (set key b segments) bytes'
  Memory-replace key a b segments bytes bytes' m found c moved fits =
      let t = rw found at (total-set (λ x. x.active_block_bytes) key b segments) in
      record {
        exact = omega (arith, m.exact, moved, t);
        each = Entries-set IsCounted key b segments m.each c;
        within = fits;
      }

  pub Memory-add :
      (key : Text) (b : Active E) (segments : Dict (Active E)) (bytes : ℕ)
      → Memory segments bytes
      → get key segments ≡ none
      → IsCounted key b
      → b.active_block_bytes ≡ 0
      → Memory (set key b segments) bytes
  Memory-add key b segments bytes m missing c empty =
      let t = rw missing at (total-set (λ x. x.active_block_bytes) key b segments) in
      record {
        exact = omega (arith, m.exact, empty, t);
        each = Entries-set IsCounted key b segments m.each c;
        within = m.within;
      }

  pub Memory-delete :
      (key : Text) (segments : Dict (Active E)) (bytes : ℕ)
      → Memory segments bytes
      → weight (λ a. a.active_block_bytes) (get key segments) ≡ 0
      → Memory (delete key segments) bytes
  Memory-delete key segments bytes m empty = record {
    exact = omega (arith, m.exact, empty, total-delete (λ x. x.active_block_bytes) key segments);
    each = Entries-delete IsCounted key segments m.each;
    within = m.within;
  }

  pub Memory-found :
      (key : Text) (a : Active E) (segments : Dict (Active E)) (bytes : ℕ)
      → Memory segments bytes
      → get key segments ≡ some a
      → IsCounted key a
  Memory-found key a segments bytes m found = Entries-get IsCounted key a segments m.each found

  pub le-bytes :
      (key : Text) (a : Active E) (segments : Dict (Active E)) (bytes : ℕ)
      → Memory segments bytes
      → get key segments ≡ some a
      → a.active_block_bytes ≤ bytes
  le-bytes key a segments bytes m found =
      let t = rw found at (total-delete (λ x. x.active_block_bytes) key segments) in
      omega (arith, m.exact, t)

pub get-set_same : {V : Type 0} (key : Text) (v : V) (d : Dict V) → get key (set key v d) ≡ some v
get-set_same key v d = get-set key key v d ∙ (rw (equals_refl key))

module _ (env : Environment) (lifecycle : Lifecycle) where
  open env use {Event, Disk}

  module _ {A : Type 0} {P : State Event Disk → Type 0} {Q : A → State Event Disk → Type 0}
      {E : State Event Disk → Type 0} where
    -- A call of another component changes the disk only.
    pub Runs-call :
        (component : Disk → Result A × Disk)
        → ((a : A) (s : State Event Disk) (disk : Disk) → P s → Q a (record s { disk = disk }))
        → ((s : State Event Disk) (disk : Disk) → P s → E (record s { disk = disk }))
        → Runs P (call env lifecycle component) Q E
    unfolding call
    Runs-call component h k = record {
      ends = λ s p.
          let (answer, disk) = component s.disk in
          elim answer as (λ r. Ends Q E (r, record s { disk = disk })) [
            | ok a ↦ h a s disk p
            | err code ↦ k s disk p
          ];
    }

  pub Runs-with_active :
      {P E : State Event Disk → Type 0} {Q : Unit {0} → State Event Disk → Type 0} (key : Text)
      (body : Active Event → Action (State Event Disk) (Unit {0}))
      → ((s : State Event Disk) → P s → get key s.active_segments ≡ none → Q tt s)
      → ((a : Active Event) → Runs (λ s. P s × (get key s.active_segments ≡ some a)) (body a) Q E)
      → Runs P (with_active env lifecycle key body) Q E
  unfolding with_active
  Runs-with_active key body missing found = record {
    ends = λ s p. elim (Option-cases (get key s.active_segments)) [
      | inl e ↦ rw (e, with_active) (missing s p e)
      | inr (a, e) ↦ rw (e, with_active) ((found a).ends s (p, e))
    ];
  }
