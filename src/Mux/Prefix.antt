-- ===== src/Mux/Prefix.antt =====
-- The handler that a call gets is the one of the longest front part of its method.
use go_muxrpc.Base.{
  ℕ, zero, suc, ◌≤◌, ◌<◌, ◌≡◌, refl, ap, sym, ◌∙◌, inl, inr, true, false, none, some, List, [], ◌∷◌,
  Text, text_eq, text_eq_iff, text_eq_refl, length, take, take_all, if◌then◌else◌, arith,
  Option-cases, Bool-cases, leb, subst,
}
use go_muxrpc.Errors.Message.{method_text}
use go_muxrpc.Mux.{find, put, register, handler_from, handler_of, typed_handled}

last_or {κ} : (P : ℕ → Type κ) (n j : ℕ) → P (suc n) → (j ≤ n → P j) → j ≤ suc n → P j
last_or P n j p f le = elim (Bool-cases (leb j n)) [
  | inl t ↦ f (ground arith)
  | inr t ↦ subst P (omega (arith, le, ltb_of_leb j n t)) p
]
  where
    ltb_of_leb : (a b : ℕ) → leb a b ≡ false → b < a
    ltb_of_leb a b e = ground arith

module _ {ℓ} {H : Type ℓ} where
  -- `h` is registered for the front part of `k` names, and nothing for a longer one up to `n`.
  record IsLongest (m : List Text) (hm : List (Text × H)) (n : ℕ) (h : H) : Type ℓ where
    size : ℕ
    nonempty : 0 < size
    within : size ≤ n
    found : find (method_text (take size m)) hm ≡ some h
    longest : (j : ℕ) → size < j → j ≤ n → find (method_text (take j m)) hm ≡ none

  from-IsLongest :
      (n : ℕ) (m : List Text) (hm : List (Text × H)) (h : H)
      → handler_from n m hm ≡ some h
      → IsLongest m hm n h
  unfolding handler_from
  from-IsLongest zero m hm h e = absurd (cc e)
  from-IsLongest (suc n) m hm h e = elim (Option-cases (find (method_text (take (suc n) m)) hm)) [
    | inl f ↦
        let k = from-IsLongest n m hm h (rw (f, handler_from) at e) in
        record {
          size = k.size;
          nonempty = k.nonempty;
          within = omega (arith, k.within);
          found = k.found;
          longest = λ j lt le.
              last_or (λ i. find (method_text (take i m)) hm ≡ none) n j f (λ l. k.longest j lt l)
                le;
        }
    | inr (g, f) ↦ record {
      size = suc n;
      nonempty = omega arith;
      within = omega arith;
      found = f ∙ rw (f, handler_from) at e;
      longest = λ j lt le. absurd (omega arith);
    }
  ]

  from-none :
      (n : ℕ) (m : List Text) (hm : List (Text × H))
      → handler_from n m hm ≡ none
      → (j : ℕ) → 0 < j
      → j ≤ n
      → find (method_text (take j m)) hm ≡ none
  unfolding handler_from
  from-none zero m hm e j pos le = absurd (omega arith)
  from-none (suc n) m hm e j pos le = elim (Option-cases (find (method_text (take (suc n) m)) hm)) [
    | inl f ↦
        last_or (λ i. find (method_text (take i m)) hm ≡ none) n j f
          (λ l. from-none n m hm (rw (f, handler_from) at e) j pos l) le
    | inr (g, f) ↦ absurd (cc (rw (f, handler_from) at e))
  ]

  -- The handler that HandleCall finds is that of the longest front part of the method for which
  -- there is one, and it finds none only if no front part has one.
  pub handler_of_longest :
      (m : List Text) (hm : List (Text × H))
      → ((h : H)
          → handler_of m hm ≡ some h
          → (k : ℕ) × (0 < k)
            × (k ≤ length m)
            × (find (method_text (take k m)) hm ≡ some h)
            × ((j : ℕ) → k < j → j ≤ length m → find (method_text (take j m)) hm ≡ none))
        × (handler_of m hm ≡ none
            → (j : ℕ) → 0 < j
            → j ≤ length m
            → find (method_text (take j m)) hm ≡ none)
  unfolding handler_of
  handler_of_longest m hm = (
    (λ h e.
        let k = from-IsLongest (length m) m hm h e in
        (k.size, k.nonempty, k.within, k.found, k.longest)),
    from-none (length m) m hm,
  )

  find-put :
      (j k : Text) (h : H) (hm : List (Text × H))
      → find j (put k h hm) ≡ (if text_eq k j then some h else find j hm)
  unfolding find put
  find-put j k h [] = refl
  find-put j k h ((i, g) ∷ hm) = elim (Bool-cases (text_eq i k)) [
    | inl e ↦
        let same : i ≡ k = (text_eq_iff i k).0 e in
        rw (e, same) (elim (Bool-cases (text_eq k j)) [ inl t ↦ rw t refl | inr t ↦ rw t refl ])
    | inr e ↦ elim (Bool-cases (text_eq i j)) [
      | inl t ↦
          let same : i ≡ j = (text_eq_iff i j).0 t in
          let other : text_eq k j ≡ false = elim (Bool-cases (text_eq k j)) [
            | inl u ↦
                absurd (cc (sym ((text_eq_iff i k).1 (same ∙ sym ((text_eq_iff k j).0 u))) ∙ e))
            | inr u ↦ u
          ] in
          rw (e, t, other) refl
      | inr t ↦ rw (e, t) (find-put j k h hm)
    ]
  ]

  from-hit :
      (n : ℕ) (m : List Text) (hm : List (Text × H)) (h : H)
      → find (method_text (take (suc n) m)) hm ≡ some h
      → handler_from (suc n) m hm ≡ some h
  unfolding handler_from
  from-hit n m hm h e = rw (e, handler_from) refl

  -- A call gets the handler that was last registered under the whole name of its method, and typemux
  -- then says that the method is handled.
  pub handler_of-register :
      (n : Text) (ns : List Text) (h : H) (hm : List (Text × H))
      → (handler_of (n ∷ ns) (register (n ∷ ns) h hm) ≡ some h)
        × (typed_handled (n ∷ ns) (register (n ∷ ns) h hm) ≡ true)
  unfolding handler_of handler_from register typed_handled
  handler_of-register n ns h hm =
      let m : List Text = n ∷ ns in
      let hit : find (method_text m) (put (method_text m) h hm) ≡ some h =
        find-put (method_text m) (method_text m) h hm ∙ rw (text_eq_refl (method_text m)) refl in
      (
        from-hit (length ns) m (put (method_text m) h hm) h (
            ap (λ t. find (method_text t) (put (method_text m) h hm))
              (take_all (suc (length ns)) m (omega arith))
            ∙ hit),
        rw (hit, typed_handled) refl,
      )
