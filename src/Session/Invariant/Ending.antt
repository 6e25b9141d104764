-- ===== src/Session/Invariant/Ending.antt =====
-- `Terminate` leaves no request active.
use go_muxrpc.Base.{
  ℕ, ◌≡◌, refl, sym, ◌∙◌, inl, inr, Bool, true, false, not, ◌&&◌, ◌||◌, none, List, [], ◌∷◌, Text,
  ◌==◌, arith, Bool-cases, Option-cases,
}
use go_muxrpc.Base.Assoc.{member, member-add, member-remove}
use go_muxrpc.Errors.{sentinel, canceled}
use go_muxrpc.External.{External}
use go_muxrpc.Session.State.{
  Session, Request, active, first_err, end_contexts, retire, set_output, set_request, terminate,
  terminate_all,
}
use go_muxrpc.Session.Invariant.Steps.{Inv, active-ids, active-none}
use go_muxrpc.Session.Invariant.Reach.{Reach, reach-Inv, contexts-Keys, ended, ended-Inv}

ended_maps :
    (x : External) (late : Bool) (r : Request) (s : Session) (j : ℕ)
    → (member j (ended x late r s).reqs ≡ (not (r.id == j) && member j s.reqs))
      × (member j (ended x late r s).reqs_closed ≡ (r.id == j || member j s.reqs_closed))
unfolding retire set_request set_output
ended_maps x late r s j = (member-remove r.id j s.reqs, member-add r.id j s.reqs_closed)

-- Who is still active after the loop was active before it, and not met by it.
still_active :
    (x : External) (late : Bool) (ids : List ℕ) (s : Session) (j : ℕ)
    → Inv s
    → member j (terminate_all x late ids s).reqs ≡ true
    → (member j s.reqs ≡ true) × (member j ids ≡ false)
unfolding terminate_all member
still_active x late [] s j k h = (h, refl)
still_active x late (id ∷ ids) s j k h = elim (Option-cases (active id s)) [
  | inl a ↦
      let (before, unmet) = still_active x late ids s j k (rw (a, terminate_all) at h) in
      (before, ground (arith, active-none id s k a, before, unmet))
  | inr (r, a) ↦
      let (m, i, n) = active-ids id s r k a in
      let (before, unmet) =
        still_active x late ids (ended x late r s) j (ended-Inv x late id r s k a)
          (rw (a, terminate_all) at h) in
      let e = (ended_maps x late r s j).0 in
      (ground (arith, e, before), ground (arith, e, before, unmet, i))
]

known : ℕ → Session → Bool
known j s = member j s.reqs || member j s.reqs_closed

-- Nobody is forgotten.
still_known :
    (x : External) (late : Bool) (ids : List ℕ) (s : Session) (j : ℕ)
    → known j s ≡ true
    → known j (terminate_all x late ids s) ≡ true
unfolding terminate_all known
still_known x late [] s j h = h
still_known x late (id ∷ ids) s j h = elim (Option-cases (active id s)) [
  | inl a ↦ rw (a, terminate_all) (still_known x late ids s j h)
  | inr (r, a) ↦
      rw (a, terminate_all)
        (still_known x late ids (ended x late r s) j (ground (arith, ended_maps x late r s j, h)))
]

-- After Terminate of a session that is reached from a new one, no request is active, and those that
-- were active are closed ones.
pub terminate-none :
    {x : External} {handled : List Text → Bool} {s : Session} (late : Bool)
    → Reach x handled s
    → (j : ℕ)
    → let t = (terminate x late s).0 in
      (member j t.reqs ≡ false)
      × (active j t ≡ none)
      × (member j s.reqs ≡ true → member j t.reqs_closed ≡ true)
unfolding terminate active known
terminate-none {x} {handled} {s} late reached j = (
  gone,
  rw gone refl,
  λ m.
      let here : known j begun ≡ true = ground (arith, m) in
      let there : known j (terminate_all x late s.reqs begun) ≡ true =
        still_known x late s.reqs begun j here in
      ground (arith, gone, there),
)
  where
    begun : Session
    begun = record s {
      serve_err = first_err s.serve_err (sentinel canceled);
      terminated = true;
      store = end_contexts s.store;
    }

    gone : member j (terminate_all x late s.reqs begun).reqs ≡ false
    gone = elim (Bool-cases (member j (terminate_all x late s.reqs begun).reqs)) [
      | inl h ↦
          let (before, unmet) =
            still_active x late s.reqs begun j (contexts-Keys (reach-Inv reached)) h in
          absurd (cc (sym before ∙ unmet))
      | inr h ↦ h
    ]
