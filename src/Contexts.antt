-- ===== src/Contexts.antt =====
-- ctx.go: a context that ends with the error that its maker chose, or with that of its parent.
--
-- `cls` may be called from anywhere and more than once, and a goroutine waits for the parent. Both go
-- through one `sync.Once`, whose body sets the error and then closes the channel.
use go_muxrpc.Base.{Bool, true, false, Option, none, some, ◌≡◌, refl, ◌∙◌, ◌⊎◌, inl, inr}
use go_muxrpc.Errors.{Err}

-- How far the body of the `Once` has come.
pub data Phase : Type 0 where
  fresh : Phase
  assigned : Option Err → Phase
  finished : Option Err → Phase

-- `own` is the error given to withError, and `watched` that the goroutine has not returned.
pub record CloseCtx : Type 0 where
  pub own : Option Err
  pub phase : Phase
  pub watched : Bool

-- `withError`
unfoldable pub with_error : Option Err → CloseCtx
with_error e = record { own = e; phase = fresh; watched = true }

-- `Done`: whether the channel is closed.
unfoldable pub is_done : Phase → Bool
is_done (finished e) = true
is_done _ = false

-- `Err`
unfoldable pub err_of : Phase → Option Err
err_of (finished e) = e
err_of _ = none

-- A call of `once.Do`: the first one runs the body, a later one waits for it and does nothing.
unfoldable pub do_once : Option Err → Phase → Phase
do_once e fresh = assigned e
do_once e (assigned f) = assigned f
do_once e (finished f) = finished f

-- `close(ch)`, the second half of the body.
unfoldable pub close_channel : Phase → Phase
close_channel (assigned e) = finished e
close_channel p = p

-- `parent` is the error of the parent once that has ended.
pub data Step (parent : Option Err) : CloseCtx → CloseCtx → Type 0 where
  cancels : (c : CloseCtx) → Step parent c (record c { phase = do_once c.own c.phase })
  parent_ends :
      (c : CloseCtx) (e : Err)
      → c.watched ≡ true
      → parent ≡ some e
      → Step parent c (record c { phase = do_once (some e) c.phase; watched = false })
  closes : (c : CloseCtx) → Step parent c (record c { phase = close_channel c.phase })
  leaves :
      (c : CloseCtx)
      → c.watched ≡ true
      → is_done c.phase ≡ true
      → Step parent c (record c { watched = false })

pub data Steps (parent : Option Err) : CloseCtx → CloseCtx → Type 0 where
  stays : (c : CloseCtx) → Steps parent c c
  then_step : {c d f : CloseCtx} → Steps parent c d → Step parent d f → Steps parent c f

-- A context that has ended keeps its error.
abbrev Keeps : Phase → Phase → Type 0
Keeps p q = is_done p ≡ true → (is_done q ≡ true) × (err_of q ≡ err_of p)

do_once-Keeps : (e : Option Err) (p : Phase) → Keeps p (do_once e p)
unfolding is_done err_of do_once
do_once-Keeps e fresh h = absurd (cc h)
do_once-Keeps e (assigned f) h = absurd (cc h)
do_once-Keeps e (finished f) h = (refl, refl)

close-Keeps : (p : Phase) → Keeps p (close_channel p)
unfolding is_done err_of close_channel
close-Keeps fresh h = absurd (cc h)
close-Keeps (assigned f) h = absurd (cc h)
close-Keeps (finished f) h = (refl, refl)

step-Keeps : {parent : Option Err} {c d : CloseCtx} → Step parent c d → Keeps c.phase d.phase
step-Keeps (cancels c) = do_once-Keeps c.own c.phase
step-Keeps (parent_ends c e w p) = do_once-Keeps (some e) c.phase
step-Keeps (closes c) = close-Keeps c.phase
step-Keeps (leaves c w d) = λ h. (h, refl)

steps-Keeps : {parent : Option Err} {c d : CloseCtx} → Steps parent c d → Keeps c.phase d.phase
steps-Keeps (stays c) h = (h, refl)
steps-Keeps (then_step before s) h =
    let (d, e) = steps-Keeps before h in let (d', e') = step-Keeps s d in (d', e' ∙ e)

-- Where the errors of a phase come from.
abbrev From : Option Err → Option Err → Phase → Type 0
From own parent fresh = Unit {0}
From own parent (assigned e) = (e ≡ own) ⊎ ((f : Err) × (parent ≡ some f) × (e ≡ some f))
From own parent (finished e) = (e ≡ own) ⊎ ((f : Err) × (parent ≡ some f) × (e ≡ some f))

do_once-From :
    (own parent e : Option Err) (p : Phase)
    → (e ≡ own) ⊎ ((f : Err) × (parent ≡ some f) × (e ≡ some f))
    → From own parent p
    → From own parent (do_once e p)
unfolding do_once
do_once-From own parent e fresh h k = h
do_once-From own parent e (assigned f) h k = k
do_once-From own parent e (finished f) h k = k

close-From :
    (own parent : Option Err) (p : Phase) → From own parent p → From own parent (close_channel p)
unfolding close_channel
close-From own parent fresh k = k
close-From own parent (assigned f) k = k
close-From own parent (finished f) k = k

record IsFrom (own parent : Option Err) (c : CloseCtx) : Type 0 where
  pub keeps_own : c.own ≡ own
  pub source : From own parent c.phase

step-IsFrom :
    {own parent : Option Err} {c d : CloseCtx}
    → Step parent c d
    → IsFrom own parent c
    → IsFrom own parent d
step-IsFrom {own} {parent} (cancels c) k = record {
  keeps_own = k.keeps_own;
  source = do_once-From own parent c.own c.phase (inl k.keeps_own) k.source;
}
step-IsFrom {own} {parent} (parent_ends c e w p) k = record {
  keeps_own = k.keeps_own;
  source = do_once-From own parent (some e) c.phase (inr (e, p, refl)) k.source;
}
step-IsFrom {own} {parent} (closes c) k = record {
  keeps_own = k.keeps_own;
  source = close-From own parent c.phase k.source;
}
step-IsFrom (leaves c w d) k = record { keeps_own = k.keeps_own; source = k.source }

steps-IsFrom :
    {own parent : Option Err} {c d : CloseCtx}
    → Steps parent c d
    → IsFrom own parent c
    → IsFrom own parent d
steps-IsFrom (stays c) k = k
steps-IsFrom (then_step before s) k = step-IsFrom s (steps-IsFrom before k)

made-IsFrom : (own parent : Option Err) → IsFrom own parent (with_error own)
unfolding with_error
made-IsFrom own parent = record { keeps_own = refl; source = tt }

error_source :
    (own parent : Option Err) (p : Phase)
    → From own parent p
    → ((is_done p ≡ false) × (err_of p ≡ none))
      ⊎ ((is_done p ≡ true)
          × ((err_of p ≡ own) ⊎ ((f : Err) × (parent ≡ some f) × (err_of p ≡ some f))))
unfolding is_done err_of
error_source own parent fresh k = inl (refl, refl)
error_source own parent (assigned e) k = inl (refl, refl)
error_source own parent (finished e) k = inr (refl, k)

-- A context of withError, however its cancel function is called, its parent ends and its goroutine runs:
-- until its channel is closed it has no error; from then on its error is the one it was made with, or
-- that of its parent if that has ended; and whatever happens next, it stays closed and its error is the
-- same.
pub with_error_once :
    (own parent : Option Err) (c d : CloseCtx)
    → Steps parent (with_error own) c
    → Steps parent c d
    → ((is_done c.phase ≡ false) × (err_of c.phase ≡ none))
      ⊎ ((is_done c.phase ≡ true)
          × ((err_of c.phase ≡ own) ⊎ ((f : Err) × (parent ≡ some f) × (err_of c.phase ≡ some f)))
          × (is_done d.phase ≡ true)
          × (err_of d.phase ≡ err_of c.phase))
with_error_once own parent c d before after =
    elim (error_source own parent c.phase (steps-IsFrom before (made-IsFrom own parent)).source) [
      | inl waiting ↦ inl waiting
      | inr (done, from) ↦
          let (done', same) = steps-Keeps after done in inr (done, from, done', same)
    ]
