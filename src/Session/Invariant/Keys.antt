-- ===== src/Session/Invariant/Keys.antt =====
-- The maps by themselves: `reqs`, `reqs_closed`, the requests and the highest id.
use go_muxrpc.Base.{
  ℕ, ◌+◌, ◌^◌, ◌≤◌, ◌<◌, ◌≡◌, inl, inr, true, false, some, List, [], ◌==◌, arith, Bool-cases,
}
use go_muxrpc.Base.Assoc.{
  member, add, remove, lookup, insert, lookup-insert, member-add, member-remove,
}
use go_muxrpc.Session.State.{Request}

-- An id is in at most one of the maps, the request of an active id has that id and sends under it, and
-- the ids of this side, which are positive, are not above the highest.
pub record Keys (reqs closed : List ℕ) (store : List (ℕ × Request)) (highest : ℕ) : Type 0 where
  pub disjoint : (id : ℕ) → member id reqs ≡ true → member id closed ≡ false
  pub stored :
      (id : ℕ)
      → member id reqs ≡ true
      → (r : Request) × (lookup id store ≡ some r) × (r.id ≡ id) × (r.sink.req ≡ id)
  pub active_local : (id : ℕ) → member id reqs ≡ true → id < 2 ^ 31 → (0 < id) × (id ≤ highest)
  pub closed_local : (id : ℕ) → member id closed ≡ true → id < 2 ^ 31 → id ≤ highest
  pub positive : highest < 2 ^ 31

pub empty-Keys : Keys [] [] [] 0
unfolding member
empty-Keys = record {
  disjoint = λ id h. cc;
  stored = λ id h. absurd (cc h);
  active_local = λ id h. absurd (cc h);
  closed_local = λ id h. absurd (cc h);
  positive = omega arith;
}

module _ {reqs closed : List ℕ} {store : List (ℕ × Request)} {highest : ℕ}
    (k : Keys reqs closed store highest) where
  -- A request changes, and keeps its ids.
  pub update-Keys :
      (r : Request) → r.sink.req ≡ r.id → Keys reqs closed (insert r.id r store) highest
  update-Keys r e = record {
    disjoint = k.disjoint;
    stored = λ id h. elim (Bool-cases (r.id == id)) [
      | inl hit ↦ (r, rw (lookup-insert r.id id r store, hit), ground arith, ground arith)
      | inr miss ↦
          let (q, l, i, n) = k.stored id h in (q, rw (lookup-insert r.id id r store, miss) l, i, n)
    ];
    active_local = k.active_local;
    closed_local = k.closed_local;
    positive = k.positive;
  }

  -- An id leaves the active map for the closed one, or goes there at once.
  pub retire-Keys :
      (id : ℕ) → (id < 2 ^ 31 → id ≤ highest) → Keys (remove id reqs) (add id closed) store highest
  retire-Keys id low = record {
    disjoint = λ j h. ground (arith, member-remove id j reqs, member-add id j closed, k.disjoint j);
    stored = λ j h. k.stored j (ground (arith, member-remove id j reqs));
    active_local = λ j h. k.active_local j (ground (arith, member-remove id j reqs));
    closed_local = λ j h. ground (arith, member-add id j closed, k.closed_local j);
    positive = k.positive;
  }

  -- A call of the remote that is not accepted.
  pub refuse-Keys :
      (id : ℕ) → 2 ^ 31 ≤ id → member id reqs ≡ false → Keys reqs (add id closed) store highest
  refuse-Keys id remote new = record {
    disjoint = λ j h. ground (arith, member-add id j closed, k.disjoint j);
    stored = k.stored;
    active_local = k.active_local;
    closed_local = λ j h. ground (arith, member-add id j closed, k.closed_local j);
    positive = k.positive;
  }

  -- A call of the remote that is accepted.
  pub accept-Keys :
      (r : Request)
      → 2 ^ 31 ≤ r.id
      → member r.id closed ≡ false
      → r.sink.req ≡ r.id
      → Keys (add r.id reqs) closed (insert r.id r store) highest
  accept-Keys r remote new e = record {
    disjoint = λ j h. ground (arith, member-add r.id j reqs, k.disjoint j);
    stored = λ j h. elim (Bool-cases (r.id == j)) [
      | inl hit ↦ (r, rw (lookup-insert r.id j r store, hit), ground arith, ground arith)
      | inr miss ↦
          let (q, l, i, n) = k.stored j (ground (arith, member-add r.id j reqs)) in
          (q, rw (lookup-insert r.id j r store, miss) l, i, n)
    ];
    active_local = λ j h. ground (arith, member-add r.id j reqs, k.active_local j);
    closed_local = k.closed_local;
    positive = k.positive;
  }

  -- A call of this side, under the next id.
  pub register-Keys :
      (r : Request)
      → r.id ≡ highest + 1
      → highest + 1 < 2 ^ 31
      → r.sink.req ≡ r.id
      → Keys (add r.id reqs) closed (insert r.id r store) (highest + 1)
  register-Keys r next room e = record {
    disjoint = λ j h. ground (
      arith,
      member-add r.id j reqs,
      k.disjoint j,
      k.closed_local j,
      Bool-cases (member j closed),
    );
    stored = λ j h. elim (Bool-cases (r.id == j)) [
      | inl hit ↦ (r, rw (lookup-insert r.id j r store, hit), ground arith, ground arith)
      | inr miss ↦
          let (q, l, i, n) = k.stored j (ground (arith, member-add r.id j reqs)) in
          (q, rw (lookup-insert r.id j r store, miss) l, i, n)
    ];
    active_local = λ j h. ground (arith, member-add r.id j reqs, k.active_local j);
    closed_local = λ j h. ground (arith, k.closed_local j);
    positive = room;
  }
